-- ===== src/Keystore/Loading.antt =====
-- load reads back what save wrote, and accepts only files that begin with an encoding.
use eternal_blue.Prelude.{
  ℕ, zero, suc, ◌-◌, ◌≤◌, Bytes, none, some, List, [], ◌∷◌, ◌++◌, ◌≡◌, ◌⊎◌, refl, sym, ap, ◌∙◌,
  Bytes-tested, ℕ-tested, length, take, drop, take-append, take_all, arith, append-nil,
  append_assoc, take-append-drop, Option-cases, inl, inr, length-take,
}
use eternal_blue.Prelude.Exec.{ok, err, Error}
use eternal_blue.Prelude.Exec.Pure.{Result-cases}
use eternal_blue.Keystore.Defs.{
  Io, all_bytes, some_bytes, fails, Disk, KeystoreData, file_size, encode, read_loop, decode,
  decode_read, load, save,
}
use eternal_blue.Keystore.Saving.{NoFailure, save-file, save_succeeds}
use eternal_blue.Keystore.Format.{IsSized, decode-encode, encode-decode, length-encode}

take_prefix : (cap : ℕ) (rest : Bytes) → take cap rest ++ drop (length (take cap rest)) rest ≡ rest
take_prefix zero rest = refl
take_prefix (suc cap) [] = refl
take_prefix (suc cap) (b ∷ rest) = ap (◌∷◌ b) (take_prefix cap rest)

take-take_prefix :
    (n cap : ℕ) (rest : Bytes)
    → take n (take cap rest) ++ drop (length (take n (take cap rest))) rest ≡ rest
take-take_prefix zero cap rest = refl
take-take_prefix (suc n) zero rest = refl
take-take_prefix (suc n) (suc cap) [] = refl
take-take_prefix (suc n) (suc cap) (b ∷ rest) = ap (◌∷◌ b) (take-take_prefix n cap rest)

-- Reading a part and then the rest is reading all.
take_parts :
    (cap : ℕ) (m r : Bytes) → length m ≤ cap → m ++ take (cap - length m) r ≡ take cap (m ++ r)
take_parts cap m r h =
    sym (take-append cap m r ∙ ap (λ p. p ++ take (cap - length m) r) (take_all cap m h))

after_part :
    (cap b : ℕ) (more rest got : Bytes)
    → length more ≤ cap
    → more ++ drop (length more) rest ≡ rest
    → (got ++ b ∷ more) ++ take (cap - length more) (drop (length more) rest)
      ≡ got ++ b ∷ take cap rest
after_part cap b more rest got h e =
    append_assoc got (b ∷ more) (take (cap - length more) (drop (length more) rest))
    ∙ ap (λ r. got ++ b ∷ r) (take_parts cap more (drop (length more) rest) h ∙ ap (take cap) e)

-- A loop that ends well has read up to the end of the file or of the buffer, short reads or not.
pub read_loop_complete :
    (ios : List Io) (cap : ℕ) (rest got buf : Bytes)
    → (read_loop ios cap rest got).0 ≡ ok buf
    → buf ≡ got ++ take cap rest
unfolding read_loop
read_loop_complete ios zero rest got buf h = rw append-nil (ground arith)
read_loop_complete [] (suc cap) rest got buf h = ground arith
read_loop_complete (fails ∷ ios) (suc cap) rest got buf h = cc
read_loop_complete (all_bytes ∷ ios) (suc cap) [] got buf h = rw append-nil (ground arith)
read_loop_complete (some_bytes n ∷ ios) (suc cap) [] got buf h = rw append-nil (ground arith)
read_loop_complete (all_bytes ∷ ios) (suc cap) (b ∷ rest) got buf h =
    read_loop_complete ios _ _ _ buf h
    ∙ after_part cap b (take cap rest) rest got (omega (arith, length-take cap rest))
        (take_prefix cap rest)
read_loop_complete (some_bytes n ∷ ios) (suc cap) (b ∷ rest) got buf h =
    read_loop_complete ios _ _ _ buf h
    ∙ after_part cap b (take n (take cap rest)) rest got
        (omega (arith, length-take n (take cap rest), length-take cap rest))
        (take-take_prefix n cap rest)

pub read_loop_succeeds :
    (ios : List Io) (cap : ℕ) (rest got : Bytes)
    → NoFailure ios
    → (read_loop ios cap rest got).0 ≡ ok (got ++ take cap rest)
unfolding read_loop
read_loop_succeeds ios zero rest got h = rw append-nil
read_loop_succeeds [] (suc cap) rest got h = refl
read_loop_succeeds (fails ∷ ios) (suc cap) rest got h = absurd (h.0 refl)
read_loop_succeeds (all_bytes ∷ ios) (suc cap) [] got h = rw append-nil
read_loop_succeeds (some_bytes n ∷ ios) (suc cap) [] got h = rw append-nil
read_loop_succeeds (all_bytes ∷ ios) (suc cap) (b ∷ rest) got h =
    read_loop_succeeds ios _ _ _ h.1
    ∙ ap ok (
        after_part cap b (take cap rest) rest got (omega (arith, length-take cap rest))
          (take_prefix cap rest))
read_loop_succeeds (some_bytes n ∷ ios) (suc cap) (b ∷ rest) got h =
    read_loop_succeeds ios _ _ _ h.1
    ∙ ap ok (
        after_part cap b (take n (take cap rest)) rest got
          (omega (arith, length-take n (take cap rest), length-take cap rest))
          (take-take_prefix n cap rest))

read_end :
    (ios : List Io) (content : Bytes)
    → ((e : Error) × (decode_read (read_loop ios file_size content []).0 ≡ err e))
      ⊎ (decode_read (read_loop ios file_size content []).0 ≡ decode (take file_size content))
read_end ios content = elim (Result-cases (read_loop ios file_size content []).0) [
  | inl (buf, e) ↦
      inr (ap decode_read e ∙ ap decode (read_loop_complete ios file_size content [] buf e))
  | inr (x, e) ↦ inl (x, ap decode_read e)
]

-- What load makes of a file: the decoding of its first bytes, or an error.
load_at :
    (disk : Disk) (content : Bytes) (ios : List Io)
    → disk.file ≡ some content
    → ((e : Error) × ((load (record disk { ios = ios })).0 ≡ err e))
      ⊎ ((load (record disk { ios = ios })).0 ≡ decode (take file_size content))
unfolding load
load_at disk content [] h = rw h (read_end [] content)
load_at disk content (all_bytes ∷ ios) h = rw h (read_end ios content)
load_at disk content (some_bytes n ∷ ios) h = rw h (read_end ios content)
load_at disk content (fails ∷ ios) h = inl (_, refl)

load-no_file :
    (disk : Disk) (ios : List Io)
    → disk.file ≡ none
    → (e : Error) × ((load (record disk { ios = ios })).0 ≡ err e)
unfolding load
load-no_file disk [] h = rw h (_, refl)
load-no_file disk (all_bytes ∷ ios) h = rw h (_, refl)
load-no_file disk (some_bytes n ∷ ios) h = rw h (_, refl)
load-no_file disk (fails ∷ ios) h = (_, refl)

load_succeeds_at :
    (disk : Disk) (content : Bytes) (ios : List Io)
    → disk.file ≡ some content
    → NoFailure ios
    → (load (record disk { ios = ios })).0 ≡ decode (take file_size content)
unfolding load
load_succeeds_at disk content [] h n =
    rw h (ap decode_read (read_loop_succeeds [] file_size content [] tt))
load_succeeds_at disk content (all_bytes ∷ ios) h n =
    rw h (ap decode_read (read_loop_succeeds ios file_size content [] n.1))
load_succeeds_at disk content (some_bytes k ∷ ios) h n =
    rw h (ap decode_read (read_loop_succeeds ios file_size content [] n.1))
load_succeeds_at disk content (fails ∷ ios) h n = absurd (n.0 refl)

-- load returns d only if the file begins with the encoding of d, whatever the system calls do.
pub load_sound :
    (disk : Disk) (d : KeystoreData)
    → (load disk).0 ≡ ok d
    → (rest : Bytes) × (disk.file ≡ some (encode d ++ rest))
load_sound disk d h = elim (Option-cases disk.file) [
  | inl gone ↦ let (e, bad) = load-no_file disk disk.ios gone in cc (bad, h)
  | inr (content, there) ↦ (
    drop file_size content,
    there
        ∙ ap some (elim (load_at disk content disk.ios there) [
          | inl (e, bad) ↦ cc (bad, h)
          | inr good ↦ sym (
              ap (λ p. p ++ drop file_size content)
                (encode-decode (take file_size content) d (sym good ∙ h))
              ∙ take-append-drop file_size content)
        ]),
  )
]

-- If no system call fails, load gives the data whose encoding the file holds.
pub load-encode :
    (d : KeystoreData) (disk : Disk)
    → IsSized d
    → disk.file ≡ some (encode d)
    → NoFailure disk.ios
    → (load disk).0 ≡ ok d
load-encode d disk h there n =
    load_succeeds_at disk (encode d) disk.ios there n
    ∙ ap decode (take_all file_size (encode d) (omega (arith, length-encode d h)))
    ∙ decode-encode d h

-- What save wrote, load reads back: if no system call fails, both return, and load gives the data
-- that was saved, through any number of short writes and reads and whatever file was there before.
pub load-save :
    (d : KeystoreData) (disk : Disk)
    → IsSized d
    → NoFailure disk.ios
    → ((save d disk).0 ≡ ok tt) × ((load (save d disk).1).0 ≡ ok d)
load-save d disk h n =
    let (saved, n') = save_succeeds d disk n in
    (saved, load-encode d (save d disk).1 h (save-file d disk saved) n')
