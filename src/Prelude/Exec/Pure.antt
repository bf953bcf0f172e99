-- ===== src/Prelude/Exec/Pure.antt =====
-- Functions that may throw and change no object. Every exception of the client is a std::exception;
-- the constructors are the classes that it throws, with the texts of its own messages.
use mathlib.Core.Path.{◌≡◌, refl}
use mathlib.Core.Logic.{◌⊎◌, inl, inr}
use eternal_blue.Prelude.Text.{Bytes}

pub data Error : Type 0 where
  tls_error : Bytes → Error
  http_error : Bytes → Error
  keystore_error : Bytes → Error
  crypto_error : Bytes → Error
  local_store_error : Bytes → Error
  key_changed_error : Bytes → Error
  runtime_error : Bytes → Error
  json_error : Bytes → Error
  invalid_argument : Error
  out_of_range : Error

-- A value, or the exception that was thrown.
pub data Result {ℓ} (T : Type ℓ) : Type ℓ where
  err : Error → Result T
  ok : T → Result T

-- The rest of a block, which an exception skips.
abbrev pub ◌>>=◌ {ℓ} : {T U : Type ℓ} → Result T → (T → Result U) → Result U
err thrown >>= rest = err thrown
ok value >>= rest = rest value

infixl 10 ◌>>=◌
pub Result-cases {ℓ} :
    {A : Type ℓ} (r : Result A) → ((a : A) × (r ≡ ok a)) ⊎ ((e : Error) × (r ≡ err e))
Result-cases (err e) = inr (e, refl)
Result-cases (ok a) = inl (a, refl)

-- What a block that returns went through.
pub bind-eq-ok {ℓ} :
    {T U : Type ℓ} (r : Result T) (rest : T → Result U) (u : U)
    → (r >>= rest) ≡ ok u
    → (t : T) × (r ≡ ok t) × (rest t ≡ ok u)
bind-eq-ok (ok t) rest u h = (t, refl, h)
bind-eq-ok (err e) rest u h = cc
