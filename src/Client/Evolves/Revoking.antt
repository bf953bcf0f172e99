-- ===== src/Client/Evolves/Revoking.antt =====
-- The effects of the revocations of sync.
use eternal_blue.Prelude.{
  Bytes, codes, Bool, true, false, Option, none, some, List, [], ◌∷◌, ℕ-tested, if◌then◌else◌,
}
use eternal_blue.Prelude.Exec.{Exec, on, pure, lift, ◌>>=◌, ◌>>◌, bind-keeps}
use eternal_blue.Sodium.{Sodium}
use eternal_blue.Json.{JsonLib}
use eternal_blue.Message.{Message}
use eternal_blue.Message.Wire.{Calendar}
use eternal_blue.LocalStore.{get_message, mark_revoked}
use eternal_blue.HttpClient.{Internet}
use eternal_blue.Client.State.{Client, store_}
use eternal_blue.Client.Inbox.{
  Reconciling, client_, count_up, revoke_known, revocation_loop, revoke_listed,
}
use eternal_blue.Client.Evolves.{
  Evolves, Evolving, Evolves-trans, same, get_message-Evolving, mark_revoked-Evolving,
}

module _ ⦃internet : Internet⦄ ⦃sodium : Sodium⦄ where
  -- The same of the try block, on the client in its state.
  abbrev Revoking : {A : Type 0} → Exec Reconciling A → Type 0
  Revoking m = (s : Reconciling) → Evolves s.client (m s).1.client

  bind-Revoking :
      {A B : Type 0} (m : Exec Reconciling A) (k : A → Exec Reconciling B)
      → Revoking m
      → ((a : A) → Revoking (k a))
      → Revoking (m >>= k)
  bind-Revoking m k h g s =
      bind-keeps (λ s'. Evolves s.client s'.client) m k s (h s)
        λ a _. Evolves-trans (h s) (g a (m s).1)

  on_client-Revoking : {A : Type 0} (m : Exec Client A) → Evolving m → Revoking (on client_ m)
  on_client-Revoking m h s = h s.client

  if-Revoking :
      {A : Type 0} (b : Bool) (m n : Exec Reconciling A)
      → Revoking m
      → Revoking n
      → Revoking (if b then m else n)
  if-Revoking true m n h g = h
  if-Revoking false m n h g = g

module _ ⦃internet : Internet⦄ ⦃sodium : Sodium⦄ ⦃json : JsonLib⦄ ⦃calendar : Calendar⦄ where
  revoke_known-Revoking : (id : Bytes) (known : Option Message) → Revoking (revoke_known id known)
  revoke_known-Revoking id none s = same
  revoke_known-Revoking id (some m) s =
      let mark : Exec Reconciling (Unit {0}) = on client_ (on store_ (mark_revoked id)) in
      if-Revoking m.revoked (pure tt) (mark >> count_up) (λ s'. same)
        (bind-Revoking mark (λ _. count_up)
          (on_client-Revoking (on store_ (mark_revoked id)) (mark_revoked-Evolving id))
          λ _ s'. same)
        s

  revocation_loop-Revoking : (items : List json.Json) → Revoking (revocation_loop items)
  unfolding revocation_loop
  revocation_loop-Revoking [] s = same
  revocation_loop-Revoking (j ∷ items) s =
      let look : Bytes → Exec Reconciling (Option Message) =
        λ id. on client_ (on store_ (get_message id)) in
      let rest : Bytes → Option Message → Exec Reconciling (Unit {0}) =
        λ id known. revoke_known id known >> revocation_loop items in
      bind-Revoking (lift (json.get_string j)) (λ id. look id >>= rest id) (λ s. same)
        (λ id.
          bind-Revoking (look id) (rest id)
            (on_client-Revoking (on store_ (get_message id)) (get_message-Evolving id))
            λ known.
              bind-Revoking (revoke_known id known) (λ _. revocation_loop items)
                (revoke_known-Revoking id known) λ _. revocation_loop-Revoking items)
        s

  pub revoke_listed-Revoking : (body : Bytes) → Revoking (revoke_listed body)
  unfolding revoke_listed
  revoke_listed-Revoking body =
      let rest : json.Json → Exec Reconciling (Unit {0}) =
        λ list. revocation_loop (json.items list) in
      bind-Revoking (lift (json.parse body)) (λ j. lift (json.at j (codes "revoked_ids")) >>= rest)
        (λ s. same)
        λ j.
          bind-Revoking (lift (json.at j (codes "revoked_ids"))) rest (λ s. same)
            λ list. revocation_loop-Revoking (json.items list)
