-- ===== src/Client/Steps.antt =====
-- A method that goes on with what a part returned.
use eternal_blue.Prelude.{◌≡◌, ◌⊎◌, inl, inr}
use eternal_blue.Prelude.Exec.{Exec, Part, Error, ok, err, on, ◌>>=◌, bind_ok, bind_err}
use eternal_blue.Prelude.Exec.Pure.{Result-cases}

module _ {S T A B : Type 0} (p : Part S T) (m : Exec T A) (k : A → Exec S B) (s : S) where
  pub on-cases :
      ((a : A) × ((m (p.get s)).0 ≡ ok a) × ((on p m >>= k) s ≡ k a (p.put s (m (p.get s)).1)))
      ⊎ ((e : Error) × ((m (p.get s)).0 ≡ err e)
          × ((on p m >>= k) s ≡ (err e, p.put s (m (p.get s)).1)))
  on-cases = elim (Result-cases (m (p.get s)).0) [
    | inl (a, e) ↦ inl (a, e, bind_ok (on p m) k s a e)
    | inr (x, e) ↦ inr (x, e, bind_err (on p m) k s x e)
  ]
