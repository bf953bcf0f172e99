-- ===== src/LocalStore/Statement.antt =====
-- The two tables, and the running of one prepared statement, which may fail.
use eternal_blue.Prelude.{
  Bytes, codes, Bool, Option, none, some, List, [], ◌∷◌, ◌++◌, ◌≡◌, ◌⊎◌, inl, inr, refl,
}
use eternal_blue.Prelude.Exec.{Error, Exec, err, local_store_error}
use eternal_blue.User.{User}
use eternal_blue.Message.{Message}

-- What SQLite may answer to one statement instead of running it, with `sqlite3_errmsg`.
pub data Fault : Type 0 where
  prepare_failed : Bytes → Fault
  step_failed : Bytes → Fault

-- A row of `messages`: the columns of a message, and `deleted`.
pub record Row : Type 0 where
  pub message : Message
  pub deleted : Bool

-- The database file. `faults` says, statement by statement, whether the coming ones fail.
pub record LocalStore : Type 0 where
  pub messages : List Row
  pub pinned_keys : List User
  pub faults : List (Option Fault)

-- A store that has just been created.
abbrev pub opened : LocalStore
opened = record { messages = []; pinned_keys = []; faults = [] }

-- Prepare, bind, step and finalize: a failure throws with its label and changes no table.
abbrev settle : {A : Type 0} → Bytes → Exec LocalStore A → Option Fault → Exec LocalStore A
settle op run none s = run s
settle op run (some (prepare_failed msg)) s =
    (err (local_store_error (op ++ (codes " prepare: " ++ msg))), s)
settle op run (some (step_failed msg)) s = (err (local_store_error (op ++ (codes ": " ++ msg))), s)

abbrev next_fault : List (Option Fault) → Option Fault × List (Option Fault)
next_fault [] = (none, [])
next_fault (f ∷ fs) = (f, fs)

abbrev pub statement : {A : Type 0} → Bytes → Exec LocalStore A → Exec LocalStore A
statement op run s =
    let (f, rest) = next_fault s.faults in settle op run f (record s { faults = rest })

-- A statement runs, or throws and changes no table.
pub statement-cases :
    {A : Type 0} (op : Bytes) (run : Exec LocalStore A) (s : LocalStore)
    → (rest : List (Option Fault)) × ((statement op run s ≡ run (record s { faults = rest }))
        ⊎ ((e : Error) × (statement op run s ≡ (err e, record s { faults = rest }))))
statement-cases {A} op run s = cases s.faults
  where
    cases :
        (fs : List (Option Fault))
        → (rest : List (Option Fault)) × ((settle op run
                (next_fault fs).0
                (record s { faults = (next_fault fs).1 })
              ≡ run (record s { faults = rest }))
            ⊎ ((e : Error) × (settle op run
                    (next_fault fs).0
                    (record s { faults = (next_fault fs).1 })
                  ≡ (err e, record s { faults = rest }))))
    cases [] = ([], inl refl)
    cases (none ∷ fs) = (fs, inl refl)
    cases (some (prepare_failed msg) ∷ fs) =
        (fs, inr (local_store_error (op ++ (codes " prepare: " ++ msg)), refl))
    cases (some (step_failed msg) ∷ fs) =
        (fs, inr (local_store_error (op ++ (codes ": " ++ msg)), refl))
