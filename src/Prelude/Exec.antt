-- ===== src/Prelude/Exec.antt =====
-- Methods that change an object and may throw. What was written before a throw stays written, so
-- the state comes back beside the error too.

pub mod Pure
pub use Pure.{
  Error, tls_error, http_error, keystore_error, crypto_error, local_store_error, key_changed_error,
  runtime_error, json_error, invalid_argument, out_of_range, Result, ok, err,
}
use mathlib.Core.Path.{◌≡◌, refl, ap}

abbrev pub Exec {ℓ} : Type ℓ → Type ℓ → Type ℓ
Exec S A = S → Result A × S

module _ {ℓ} {S A : Type ℓ} where
  abbrev pub pure : A → Exec S A
  pure a s = (ok a, s)

  abbrev pub throw : Error → Exec S A
  throw e s = (err e, s)

  abbrev pub lift : Result A → Exec S A
  lift r s = (r, s)

module _ {ℓ} {S A B : Type ℓ} where
  abbrev pub resume : Result A → (A → Exec S B) → Exec S B
  resume (ok a) f s = f a s
  resume (err e) f s = (err e, s)

  infixl 10 ◌>>=◌ ◌>>◌
  abbrev pub ◌>>=◌ : Exec S A → (A → Exec S B) → Exec S B
  ◌>>=◌ m f s = let (r, s') = m s in resume r f s'

  abbrev pub ◌>>◌ : Exec S A → Exec S B → Exec S B
  m >> n = m >>= λ _. n

-- Reasoning about a bind by the way its first action ended.
module _ {ℓ} {S A B : Type ℓ} where
  resume-keeps {κ} :
      (P : S → Type κ) (r : Result A) (f : A → Exec S B) (s : S)
      → P s
      → ((a : A) → r ≡ ok a → P (f a s).1)
      → P (resume r f s).1
  resume-keeps P (ok a) f s h k = k a refl
  resume-keeps P (err e) f s h k = h

  pub bind-keeps {κ} :
      (P : S → Type κ) (m : Exec S A) (f : A → Exec S B) (s : S)
      → P (m s).1
      → ((a : A) → (m s).0 ≡ ok a → P (f a (m s).1).1)
      → P ((m >>= f) s).1
  bind-keeps P m f s = resume-keeps P (m s).0 f (m s).1

  resume-eq-ok :
      (r : Result A) (f : A → Exec S B) (s : S) (b : B)
      → (resume r f s).0 ≡ ok b
      → (a : A) × (r ≡ ok a) × ((f a s).0 ≡ ok b)
  resume-eq-ok (ok a) f s b h = (a, refl, h)
  resume-eq-ok (err e) f s b h = cc

  pub bind-eq-ok :
      (m : Exec S A) (f : A → Exec S B) (s : S) (b : B)
      → ((m >>= f) s).0 ≡ ok b
      → (a : A) × ((m s).0 ≡ ok a) × ((f a (m s).1).0 ≡ ok b)
  bind-eq-ok m f s = resume-eq-ok (m s).0 f (m s).1

  pub bind_ok :
      (m : Exec S A) (f : A → Exec S B) (s : S) (a : A) → (m s).0 ≡ ok a → (m >>= f) s ≡ f a (m s).1
  bind_ok m f s a h = ap (λ r. resume r f (m s).1) h

  pub bind_err :
      (m : Exec S A) (f : A → Exec S B) (s : S) (e : Error)
      → (m s).0 ≡ err e
      → (m >>= f) s ≡ (err e, (m s).1)
  bind_err m f s e h = ap (λ r. resume r f (m s).1) h

-- A part of the state.
pub record Part {ℓ} (S T : Type ℓ) : Type ℓ where
  pub get : S → T
  pub put : S → T → S

-- `m` on a part of the state.
abbrev pub on {ℓ} : {S T A : Type ℓ} → Part S T → Exec T A → Exec S A
on p m s = let (r, t) = m (p.get s) in (r, p.put s t)
