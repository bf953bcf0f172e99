-- ===== src/Keystore/Tests.antt =====
-- Runs of the keystore, and the theorems on it at concrete inputs.
use eternal_blue.Prelude.{Bytes, codes, some, [], ◌∷◌, ◌++◌, ◌≡◌, refl, replicate, bytes_beq}
use eternal_blue.Prelude.Exec.{ok, err, keystore_error}
use eternal_blue.Keystore.Defs.{
  all_bytes, some_bytes, Disk, KeystoreData, encode, decode, write_loop, read_loop, save, load,
}
use eternal_blue.Keystore.Saving.{NoFailure}
use eternal_blue.Keystore.Loading.{load_sound, load-save}

abbrev keys : KeystoreData
keys = record {
  salt = replicate 16 1;
  wrapped = record { nonce = replicate 24 2; ciphertext = replicate 48 3 };
}

-- Three short writes, then short reads.
abbrev slow : Disk
slow = record {
  path = codes "keys.bin";
  file = some (codes "something older and shorter");
  ios = all_bytes ∷ some_bytes 9 ∷ some_bytes 0 ∷ all_bytes ∷ all_bytes ∷ some_bytes 40 ∷ [];
}

saved : (save keys slow).1.file ≡ some (encode keys)
unfolding save write_loop encode
saved = refl

corrupt :
    (load (record slow { file = some (codes "not a keystore"); ios = [] })).0
    ≡ err (keystore_error (codes "keystore wrong size (corrupt?)"))
unfolding load read_loop decode
corrupt = refl

slow-NoFailure : NoFailure slow.ios
slow-NoFailure = (λ e. cc e, (λ e. cc e, (λ e. cc e, (λ e. cc e, (λ e. cc e, (λ e. cc e, tt))))))

load-save_example : ((save keys slow).0 ≡ ok tt) × ((load (save keys slow).1).0 ≡ ok keys)
load-save_example =
    load-save keys slow (record { salt = refl; nonce = refl; ciphertext = refl }) slow-NoFailure

-- A file with more bytes behind an encoding loads too.
abbrev padded : Disk
padded = record { path = []; file = some (encode keys ++ codes "trailing"); ios = [] }

load_sound_example : (rest : Bytes) × (padded.file ≡ some (encode keys ++ rest))
unfolding load read_loop decode encode bytes_beq
load_sound_example = load_sound padded keys refl
