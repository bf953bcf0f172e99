-- ===== src/Keystore/Defs.antt =====
-- The file and its system calls, Keystore::exists, save and load.
use eternal_blue.Prelude.{
  ℕ, zero, suc, ◌+◌, ◌-◌, Bytes, codes, ◌==◌, Bool, true, false, not, Option, none, some, List, [],
  ◌∷◌, ◌++◌, if◌then◌else◌, Bytes-tested, ℕ-tested, length, take, drop, get_or,
}
use eternal_blue.Prelude.Exec.{Exec, Result, ok, err, keystore_error, Error}
use eternal_blue.CryptoContext.{WrappedKey}

-- How the system answers one open, read or write: it moves all the bytes that it can, or at most
-- n + 1 of them, or it fails.
pub data Io : Type 0 where
  all_bytes : Io
  some_bytes : ℕ → Io
  fails : Io

-- The keystore's path, the file there, and how the coming system calls go: all well, once the list ends.
pub record Disk : Type 0 where
  pub path : Bytes
  pub file : Option Bytes
  pub ios : List Io

pub record KeystoreData : Type 0 where
  pub salt : Bytes
  pub wrapped : WrappedKey

-- kMagic, kVersion, kFileSize
abbrev pub magic : Bytes
magic = codes "EBKS"

abbrev pub version : ℕ
version = 1

abbrev pub file_size : ℕ
file_size = 4 + 1 + 16 + 24 + (32 + 16)

-- The buffer that save fills.
unfoldable pub encode : KeystoreData → Bytes
encode d = magic ++ (version ∷ (d.salt ++ (d.wrapped.nonce ++ d.wrapped.ciphertext)))

unfoldable pub exists : Disk → Bool
exists disk = elim disk.file [ none ↦ false | some content ↦ true ]

abbrev next_io : List Io → Io × List Io
next_io [] = (all_bytes, [])
next_io (io ∷ ios) = (io, ios)

-- while (off < buf.size()): `rest` is what is not written yet, `file` what the file holds.
unfoldable pub write_loop : List Io → Bytes → Bytes → Result (Unit {0}) × (Bytes × List Io)
write_loop ios [] file = (ok tt, (file, ios))
write_loop [] (b ∷ rest) file = (ok tt, (file ++ b ∷ rest, []))
write_loop (all_bytes ∷ ios) (b ∷ rest) file = (ok tt, (file ++ b ∷ rest, ios))
write_loop (some_bytes n ∷ ios) (b ∷ rest) file =
    write_loop ios (drop n rest) (file ++ b ∷ take n rest)
write_loop (fails ∷ ios) (b ∷ rest) file =
    (err (keystore_error (codes "write to keystore failed")), (file, ios))

-- open with O_CREAT | O_WRONLY | O_TRUNC, then the loop.
abbrev save_opened : Io → KeystoreData → Disk → Result (Unit {0}) × Disk
save_opened fails d disk =
    (err (keystore_error (codes "cannot open keystore for writing: " ++ disk.path)), disk)
save_opened _ d disk =
    let (r, (file, ios)) = write_loop disk.ios (encode d) [] in
    (r, record disk { file = some file; ios = ios })

unfoldable pub save : KeystoreData → Exec Disk Unit
save d disk = let (io, ios) = next_io disk.ios in save_opened io d (record disk { ios = ios })

-- while (off < buf.size()): room for `cap` more bytes, `rest` of the file not read yet, `got` so far.
unfoldable pub read_loop : List Io → ℕ → Bytes → Bytes → Result Bytes × List Io
read_loop ios zero rest got = (ok got, ios)
read_loop [] (suc cap) rest got = (ok (got ++ take (suc cap) rest), [])
read_loop (fails ∷ ios) (suc cap) rest got =
    (err (keystore_error (codes "read from keystore failed")), ios)
read_loop (io ∷ ios) (suc cap) [] got = (ok got, ios)
read_loop (all_bytes ∷ ios) (suc cap) (b ∷ rest) got =
    let more = take cap rest in
    read_loop ios (cap - length more) (drop (length more) rest) (got ++ b ∷ more)
read_loop (some_bytes n ∷ ios) (suc cap) (b ∷ rest) got =
    let more = take n (take cap rest) in
    read_loop ios (cap - length more) (drop (length more) rest) (got ++ b ∷ more)

-- The checks on the buffer, and the three memcpys.
unfoldable pub decode : Bytes → Result KeystoreData
decode buf =
    if not (length buf == file_size)
    then err (keystore_error (codes "keystore wrong size (corrupt?)"))
    else if not (take 4 buf == magic)
    then err (keystore_error (codes "bad keystore magic"))
    else if not (get_or buf 4 0 == version)
    then err (keystore_error (codes "unsupported keystore version"))
    else ok (record {
      salt = take 16 (drop 5 buf);
      wrapped = record { nonce = take 24 (drop 21 buf); ciphertext = take 48 (drop 45 buf) };
    })

abbrev pub decode_read : Result Bytes → Result KeystoreData
decode_read (ok buf) = decode buf
decode_read (err e) = err e

abbrev not_found : Bytes → Error
not_found path = keystore_error (codes "keystore not found: " ++ path)

abbrev load_opened : Io → Option Bytes → Disk → Result KeystoreData × Disk
load_opened fails file disk = (err (not_found disk.path), disk)
load_opened _ none disk = (err (not_found disk.path), disk)
load_opened _ (some content) disk =
    let (r, ios) = read_loop disk.ios file_size content [] in
    (decode_read r, record disk { ios = ios })

unfoldable pub load : Exec Disk KeystoreData
load disk = let (io, ios) = next_io disk.ios in load_opened io disk.file (record disk { ios = ios })
