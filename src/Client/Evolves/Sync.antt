-- ===== src/Client/Evolves/Sync.antt =====
-- The effects of sync.
use eternal_blue.Prelude.{ℕ, Bytes, codes, Bool, [], ◌++◌, ℕ-tested, Bool-cases, inl, inr}
use eternal_blue.Prelude.Decimal.{to_string, to_string_signed}
use eternal_blue.Prelude.Exec.{Exec, Result, ok, err, on, pure, lift, ◌>>=◌, ◌>>◌}
use eternal_blue.Sodium.{Sodium}
use eternal_blue.Json.{JsonLib}
use eternal_blue.Message.Wire.{Calendar}
use eternal_blue.HttpClient.{Internet, HttpResponse, get}
use eternal_blue.Client.State.{Client, http_, has_status, failure_text}
use eternal_blue.Client.Inbox.{
  Tally, announce_error, announce_line, inbox_loop, Reconciling, revoke_listed, report_revoking,
  reconcile_with, reconcile, sync_inbox, sync_answered, sync,
}
use eternal_blue.Client.Evolves.{
  Evolves, Evolving, Evolves-trans, same, bind-Evolving, if-Evolving, if_at-Evolving, get-Evolving,
}
use eternal_blue.Client.Evolves.Revoking.{revoke_listed-Revoking}
use eternal_blue.Client.Evolves.Inbox.{error_then-Evolving, line_then-Evolving, inbox_loop-Outcome}

module _ ⦃internet : Internet⦄ ⦃sodium : Sodium⦄ ⦃json : JsonLib⦄ ⦃calendar : Calendar⦄ where
  report_revoking-Evolves :
      (announce : Bool) (r : Result (Unit {0})) (s : Reconciling)
      → Evolves s.client (report_revoking announce (r, s)).1
  report_revoking-Evolves announce (ok _) s = same
  report_revoking-Evolves announce (err e) s = error_then-Evolving announce _ s.revocations s.client

  revoking-Evolving :
      (announce : Bool) (body : Bytes)
      → Evolving λ c.
        report_revoking announce (revoke_listed body (record { client = c; revocations = 0 }))
  revoking-Evolving announce body c =
      let start : Reconciling = record { client = c; revocations = 0 } in
      let (r, s) = revoke_listed body start in
      Evolves-trans (revoke_listed-Revoking body start) (report_revoking-Evolves announce r s)

  reconcile_with-Evolving :
      (announce : Bool) (resp : HttpResponse) → Evolving (reconcile_with announce resp)
  reconcile_with-Evolving announce resp c =
      let text =
        codes "revocation sync failed (" ++ (to_string_signed resp.status_code ++ codes ")") in
      elim (Bool-cases (has_status 200 resp)) [
        | inl accepted ↦ rw accepted (revoking-Evolving announce resp.body c)
        | inr refused ↦ rw refused (error_then-Evolving {A = ℕ} announce text 0 c)
      ]

  reconcile-Evolving : (announce : Bool) → Evolving (reconcile announce)
  unfolding reconcile
  reconcile-Evolving announce =
      bind-Evolving (on http_ (get (codes "/api/messages/revoked"))) (reconcile_with announce)
        (get-Evolving (codes "/api/messages/revoked")) (reconcile_with-Evolving announce)

  sync_inbox-Evolving : (announce : Bool) (body : Bytes) → Evolving (sync_inbox announce body)
  unfolding sync_inbox
  sync_inbox-Evolving announce body =
      let start : Tally = record { senders = []; saved = 0; skipped = 0 } in
      let summary : Tally → ℕ → Bytes = λ t n.
        codes "inbox: "
        ++ (to_string t.saved
            ++ (codes " new, "
                ++ (to_string n
                    ++ (codes " revoked, " ++ (to_string t.skipped ++ codes " skipped"))))) in
      let last : Tally → ℕ → Exec Client ℕ =
        λ t n. announce_line announce (summary t n) >> pure 0 in
      let middle : Tally → Exec Client ℕ = λ t. reconcile announce >>= last t in
      let first : json.Json → Exec Client ℕ =
        λ list. inbox_loop announce (json.items list) start >>= middle in
      bind-Evolving (lift (json.parse body)) (λ j. lift (json.at j (codes "messages")) >>= first)
        (λ c. same)
        λ j.
          bind-Evolving (lift (json.at j (codes "messages"))) first (λ c. same)
            λ list.
              bind-Evolving (inbox_loop announce (json.items list) start) middle
                (λ c. (inbox_loop-Outcome announce (json.items list) start c tt).0)
                λ t.
                  bind-Evolving (reconcile announce) (last t) (reconcile-Evolving announce)
                    λ n. line_then-Evolving announce (summary t n) 0

  sync_answered-Evolving :
      (announce : Bool) (resp : HttpResponse) → Evolving (sync_answered announce resp)
  sync_answered-Evolving announce resp =
      if-Evolving (has_status 200 resp) _ _ (sync_inbox-Evolving announce resp.body)
        (error_then-Evolving {A = ℕ} announce (failure_text (codes "inbox failed") resp) 1)

  pub sync-Evolving : (announce : Bool) → Evolving (sync announce)
  unfolding sync
  sync-Evolving announce c =
      let path = codes "/api/messages?box=inbox" in
      let refusal : Exec Client ℕ = announce_error announce (codes "not logged in") >> pure 1 in
      if_at-Evolving c.logged_in (on http_ (get path) >>= sync_answered announce) refusal
        (bind-Evolving (on http_ (get path)) (sync_answered announce) (get-Evolving path)
          (sync_answered-Evolving announce))
        (error_then-Evolving {A = ℕ} announce (codes "not logged in") 1) c
