-- ===== src/Keystore/Saving.antt =====
-- What save leaves in the file, however many short writes there are.
use eternal_blue.Prelude.{
  ℕ, Bytes, some, List, [], ◌∷◌, ◌++◌, ◌≡◌, ◌≢◌, refl, sym, ap, ◌∙◌, take, drop, append-nil,
  append_assoc, take-append-drop, All,
}
use eternal_blue.Prelude.Exec.{ok}
use eternal_blue.Keystore.Defs.{
  Io, all_bytes, some_bytes, fails, Disk, KeystoreData, encode, write_loop, save,
}

-- No system call to come fails.
abbrev pub NoFailure : List Io → Type 0
NoFailure = All (λ io. io ≢ fails)

regroup :
    (file : Bytes) (b : ℕ) (n : ℕ) (rest : Bytes)
    → (file ++ b ∷ take n rest) ++ drop n rest ≡ file ++ b ∷ rest
regroup file b n rest =
    append_assoc file (b ∷ take n rest) (drop n rest)
    ∙ ap (λ r. file ++ b ∷ r) (take-append-drop n rest)

-- A loop that ends well has written everything.
pub write_loop_complete :
    (ios : List Io) (rest file : Bytes)
    → (write_loop ios rest file).0 ≡ ok tt
    → (write_loop ios rest file).1.0 ≡ file ++ rest
unfolding write_loop
write_loop_complete [] [] file h = sym (append-nil file)
write_loop_complete (io ∷ ios) [] file h = sym (append-nil file)
write_loop_complete [] (b ∷ rest) file h = refl
write_loop_complete (all_bytes ∷ ios) (b ∷ rest) file h = refl
write_loop_complete (some_bytes n ∷ ios) (b ∷ rest) file h =
    write_loop_complete ios (drop n rest) (file ++ b ∷ take n rest) h ∙ regroup file b n rest
write_loop_complete (fails ∷ ios) (b ∷ rest) file h = cc

-- Without failures it ends well, and what is left of the schedule has none either.
pub write_loop_succeeds :
    (ios : List Io) (rest file : Bytes)
    → NoFailure ios
    → ((write_loop ios rest file).0 ≡ ok tt) × NoFailure (write_loop ios rest file).1.1
unfolding write_loop
write_loop_succeeds [] [] file h = (refl, tt)
write_loop_succeeds (io ∷ ios) [] file h = (refl, h)
write_loop_succeeds [] (b ∷ rest) file h = (refl, tt)
write_loop_succeeds (all_bytes ∷ ios) (b ∷ rest) file h = (refl, h.1)
write_loop_succeeds (some_bytes n ∷ ios) (b ∷ rest) file h =
    write_loop_succeeds ios (drop n rest) (file ++ b ∷ take n rest) h.1
write_loop_succeeds (fails ∷ ios) (b ∷ rest) file h = absurd (h.0 refl)

module _ (d : KeystoreData) (disk : Disk) where
  save-file_at :
      (ios : List Io)
      → (save d (record disk { ios = ios })).0 ≡ ok tt
      → (save d (record disk { ios = ios })).1.file ≡ some (encode d)
  unfolding save
  save-file_at [] h = ap some (write_loop_complete [] (encode d) [] h)
  save-file_at (all_bytes ∷ ios) h = ap some (write_loop_complete ios (encode d) [] h)
  save-file_at (some_bytes n ∷ ios) h = ap some (write_loop_complete ios (encode d) [] h)
  save-file_at (fails ∷ ios) h = cc

  save_succeeds_at :
      (ios : List Io)
      → NoFailure ios
      → ((save d (record disk { ios = ios })).0 ≡ ok tt)
        × NoFailure (save d (record disk { ios = ios })).1.ios
  unfolding save
  save_succeeds_at [] h = write_loop_succeeds [] (encode d) [] tt
  save_succeeds_at (all_bytes ∷ ios) h = write_loop_succeeds ios (encode d) [] h.1
  save_succeeds_at (some_bytes n ∷ ios) h = write_loop_succeeds ios (encode d) [] h.1
  save_succeeds_at (fails ∷ ios) h = absurd (h.0 refl)

  -- If save returns, the file holds the encoding and nothing else, whatever it held before.
  pub save-file : (save d disk).0 ≡ ok tt → (save d disk).1.file ≡ some (encode d)
  save-file = save-file_at disk.ios

  -- If no system call fails, save returns.
  pub save_succeeds : NoFailure disk.ios → ((save d disk).0 ≡ ok tt) × NoFailure (save d disk).1.ios
  save_succeeds = save_succeeds_at disk.ios
