-- ===== src/Client/State.antt =====
-- The members of Client, what the process reads and writes, and the parts that the methods act on.
use eternal_blue.Prelude.{ℕ, suc, Bytes, codes, Bool, false, List, [], ◌∷◌, ◌++◌, nat_beq}
use eternal_blue.Prelude.Int.{ℤ, pos, negsuc}
use eternal_blue.Prelude.Decimal.{to_string_signed}
use eternal_blue.Prelude.Exec.{
  Exec, Part, Result, ok, Error, tls_error, http_error, keystore_error, crypto_error,
  local_store_error, key_changed_error, runtime_error, json_error, invalid_argument, out_of_range,
}
use eternal_blue.HttpClient.{HttpClient, HttpResponse}
use eternal_blue.Keystore.{Disk}
use eternal_blue.LocalStore.{LocalStore}

-- A line on std::cout, a text there without a line break, and a line on std::cerr.
pub data Output : Type 0 where
  out : Bytes → Output
  prompt : Bytes → Output
  error : Bytes → Output

-- The i-th reading of the system clock, in milliseconds.
pub record Clock : Type 0 where
  pub now : ℕ → ℤ

-- `drawn` random draws and `readings` of the clock were made; `input` is what is left on std::cin, line
-- by line; `output` is what was printed, oldest first.
pub record Client : Type 0 where
  pub http : HttpClient
  pub keystore : Disk
  pub store : LocalStore
  pub drawn : ℕ
  pub readings : ℕ
  pub input : List Bytes
  pub output : List Output
  pub logged_in : Bool
  pub user_id : Bytes
  pub username : Bytes
  pub session_sk : Bytes

abbrev pub http_ : Part Client HttpClient
http_ = record { get = λ c. c.http; put = λ c http. record c { http = http } }

abbrev pub keystore_ : Part Client Disk
keystore_ = record { get = λ c. c.keystore; put = λ c disk. record c { keystore = disk } }

abbrev pub store_ : Part Client LocalStore
store_ = record { get = λ c. c.store; put = λ c store. record c { store = store } }

abbrev pub crypto_ : Part Client ℕ
crypto_ = record { get = λ c. c.drawn; put = λ c drawn. record c { drawn = drawn } }

abbrev pub print : Bytes → Exec Client (Unit {0})
print text c = (ok tt, record c { output = c.output ++ out text ∷ [] })

abbrev pub complain : Bytes → Exec Client (Unit {0})
complain text c = (ok tt, record c { output = c.output ++ error text ∷ [] })

abbrev pub ask : Bytes → Exec Client (Unit {0})
ask text c = (ok tt, record c { output = c.output ++ prompt text ∷ [] })

-- The UTF-8 bytes of a long dash.
abbrev pub dash : Bytes
dash = 226 ∷ 128 ∷ 148 ∷ []

abbrev pub members : Exec Client Client
members c = (ok c, c)

module _ ⦃clock : Clock⦄ where
  unfoldable pub current_ms : Exec Client ℤ
  current_ms c = (ok (clock.now c.readings), record c { readings = suc c.readings })

-- try, with the exception as a value
abbrev pub attempt : {S A : Type 0} → Exec S A → Exec S (Result A)
attempt m s = let (r, t) = m s in (ok r, t)

abbrev pub has_status : ℕ → HttpResponse → Bool
has_status code resp = elim resp.status_code [ pos n ↦ nat_beq n code | negsuc n ↦ false ]

-- "… (status): body"
unfoldable pub failure_text : Bytes → HttpResponse → Bytes
unfolding to_string_signed
failure_text what resp =
    what ++ (codes " (" ++ (to_string_signed resp.status_code ++ (codes "): " ++ resp.body)))

-- e.what()
unfoldable pub what : Error → Bytes
what (tls_error text) = text
what (http_error text) = text
what (keystore_error text) = text
what (crypto_error text) = text
what (local_store_error text) = text
what (key_changed_error text) = text
what (runtime_error text) = text
what (json_error text) = text
what invalid_argument = codes "stoi"
what out_of_range = codes "stoi"
