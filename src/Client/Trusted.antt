-- ===== src/Client/Trusted.antt =====
-- To whom a client has sent texts.
use eternal_blue.Prelude.{Bytes, List, [], ◌∷◌, ◌++◌, ◌≡◌, ◌⊎◌, refl, subst, sym, ◌∙◌}
use eternal_blue.Sodium.{Sodium}
use eternal_blue.TlsConnection.Verified.{IsVerified}
use eternal_blue.HttpClient.{Internet, HttpClient, request, set_bearer_token}
use eternal_blue.HttpClient.Exchange.{request-IsVerified}
use eternal_blue.Client.State.{Client}
use eternal_blue.Client.Evolves.{
  Effect, requests, takes_token, saves_message, stores, keeps_key, draws, reads_clock, writes,
  reads_line, reads_end, sets_session, Evolves, same, more,
}

-- The texts that were sent since `old`: each is empty, or went over a connection whose handshake
-- succeeded and whose certificate was verified for the host.
pub data AreTrusted ⦃internet : Internet⦄ (host ca_bundle : Bytes) (old : List Bytes)
    : List Bytes → Type 0 where
  none_sent : AreTrusted host ca_bundle old old
  sent :
      {log : List Bytes}
      → AreTrusted host ca_bundle old log
      → (text : Bytes) → (text ≡ []) ⊎ IsVerified (internet.session log) host ca_bundle
      → AreTrusted host ca_bundle old (log ++ text ∷ [])

module _ ⦃internet : Internet⦄ where
  -- The same peer, and only trusted texts more.
  pub record SendsSafely (old new : HttpClient) : Type 0 where
    pub host : new.host ≡ old.host
    pub ca_bundle : new.ca_bundle ≡ old.ca_bundle
    pub log : AreTrusted old.host old.ca_bundle old.log new.log

  AreTrusted-trans :
      {host ca : Bytes} {old mid new : List Bytes}
      → AreTrusted host ca old mid
      → AreTrusted host ca mid new
      → AreTrusted host ca old new
  AreTrusted-trans p none_sent = p
  AreTrusted-trans p (sent q text h) = sent (AreTrusted-trans p q) text h

  SendsSafely-refl : (h : HttpClient) → SendsSafely h h
  SendsSafely-refl h = record { host = refl; ca_bundle = refl; log = none_sent }

  SendsSafely-trans : {h i j : HttpClient} → SendsSafely h i → SendsSafely i j → SendsSafely h j
  SendsSafely-trans {h} {i} {j} p q = record {
    host = q.host ∙ p.host;
    ca_bundle = q.ca_bundle ∙ p.ca_bundle;
    log = AreTrusted-trans p.log (rw (p.host, p.ca_bundle) at q.log);
  }

  request-SendsSafely :
      (method path body : Bytes) (h : HttpClient) → SendsSafely h (request method path body h).1
  unfolding request
  request-SendsSafely method path body h =
      let (text, grown, safe) = request-IsVerified h method path body in
      record {
        host = refl;
        ca_bundle = refl;
        log = subst (AreTrusted h.host h.ca_bundle h.log) (sym grown) (sent none_sent text safe);
      }

module _ ⦃internet : Internet⦄ ⦃sodium : Sodium⦄ where
  Effect-SendsSafely : {c d : Client} → Effect c d → SendsSafely c.http d.http
  unfolding set_bearer_token
  Effect-SendsSafely {c} (requests method path body e) =
      rw e (request-SendsSafely method path body c.http)
  Effect-SendsSafely (takes_token token e) =
      rw e (record { host = refl; ca_bundle = refl; log = none_sent })
  Effect-SendsSafely (saves_message m genuine e) = rw e (SendsSafely-refl _)
  Effect-SendsSafely (stores st no_save e) = rw e (SendsSafely-refl _)
  Effect-SendsSafely (keeps_key disk e) = rw e (SendsSafely-refl _)
  Effect-SendsSafely (draws n e) = rw e (SendsSafely-refl _)
  Effect-SendsSafely (reads_clock n e) = rw e (SendsSafely-refl _)
  Effect-SendsSafely (writes o e) = rw e (SendsSafely-refl _)
  Effect-SendsSafely (reads_line line rest was e) = rw e (SendsSafely-refl _)
  Effect-SendsSafely (reads_end was e) = rw e (SendsSafely-refl _)
  Effect-SendsSafely (sets_session inside id name sk e) = rw e (SendsSafely-refl _)

  pub Evolves-SendsSafely : {c d : Client} → Evolves c d → SendsSafely c.http d.http
  Evolves-SendsSafely {c} same = SendsSafely-refl c.http
  Evolves-SendsSafely (more p e) = SendsSafely-trans (Evolves-SendsSafely p) (Effect-SendsSafely e)
