-- ===== src/Client/Guards.antt =====
-- What the commands do when nobody is logged in, and what a logout leaves.
use eternal_blue.Prelude.{ℕ, codes, true, false, [], ◌∷◌, ◌++◌, ◌≡◌, refl, replicate}
use eternal_blue.Prelude.Exec.{Exec, ok}
use eternal_blue.Sodium.{Sodium}
use eternal_blue.HttpClient.{set_bearer_token}
use eternal_blue.Client.State.{Client, error}
use eternal_blue.Client.Session.{logout, ended}

-- The command returns 1 and prints one line: no request, no draw, no statement, no change.
abbrev pub Refuses : Exec Client ℕ → Client → Type 0
Refuses command c =
    command c ≡ (ok 1, record c { output = c.output ++ error (codes "not logged in") ∷ [] })

-- A logout of a session leaves no token, user id, user name or key, and its database, keystore and
-- requests unchanged.
pub logout_lem :
    (c : Client)
    → c.logged_in ≡ true
    → ((logout c).0 ≡ ok 0)
      × ((logout c).1.http ≡ set_bearer_token [] c.http)
      × ((logout c).1.session_sk ≡ replicate 32 0)
      × ((logout c).1.user_id ≡ [])
      × ((logout c).1.username ≡ [])
      × ((logout c).1.logged_in ≡ false)
      × ((logout c).1.store ≡ c.store)
      × ((logout c).1.keystore ≡ c.keystore)
unfolding logout ended
logout_lem c h =
    (rw h refl, rw h refl, rw h refl, rw h refl, rw h refl, rw h refl, rw h refl, rw h refl)
