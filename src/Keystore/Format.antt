-- ===== src/Keystore/Format.antt =====
-- The file format: decode undoes encode, and reads nothing but encodings.
use eternal_blue.Prelude.{
  ◌<◌, Bytes, ◌==◌, Bool, true, not, [], ◌∷◌, ◌++◌, ◌≡◌, sym, ap, ◌∙◌, Bytes-tested, ℕ-tested,
  length, take, drop, get_or, take_all, arith, take-append-drop, length-append, bytes_beq_refl,
  take_exact, drop_exact, drop-drop, bytes_beq_iff, nat_beq_iff, if◌then◌else◌, length-drop,
}
use eternal_blue.Prelude.Exec.{ok, err, Error}
use eternal_blue.Keystore.Defs.{KeystoreData, magic, version, file_size, encode, decode}

-- The sizes of the fixed arrays.
pub record IsSized (d : KeystoreData) : Type 0 where
  pub salt : length d.salt ≡ 16
  pub nonce : length d.wrapped.nonce ≡ 24
  pub ciphertext : length d.wrapped.ciphertext ≡ 48

module _ (d : KeystoreData) (h : IsSized d) where
  abbrev body : Bytes
  body = d.salt ++ (d.wrapped.nonce ++ d.wrapped.ciphertext)

  length-body : length body ≡ 88
  length-body = omega (
    arith,
    h,
    length-append d.salt (d.wrapped.nonce ++ d.wrapped.ciphertext),
    length-append d.wrapped.nonce d.wrapped.ciphertext,
  )

  nonce_at : drop 16 body ≡ d.wrapped.nonce ++ d.wrapped.ciphertext
  nonce_at = drop_exact 16 d.salt (d.wrapped.nonce ++ d.wrapped.ciphertext) h.salt

  ciphertext_at : drop 40 body ≡ d.wrapped.ciphertext
  ciphertext_at =
      sym (drop-drop 24 16 body)
      ∙ ap (drop 24) nonce_at
      ∙ drop_exact 24 d.wrapped.nonce d.wrapped.ciphertext h.nonce

  pub length-encode : length (encode d) ≡ file_size
  unfolding encode
  length-encode = omega (arith, length-body)

  -- The checks pass on an encoding, and the three copies give its parts back.
  pub decode-encode : decode (encode d) ≡ ok d
  unfolding decode encode
  decode-encode =
      rw
        (
          length-body,
          bytes_beq_refl magic,
          take_exact 16 d.salt (d.wrapped.nonce ++ d.wrapped.ciphertext) h.salt,
          nonce_at,
          ciphertext_at,
        )
        (rw (
          take_exact 24 d.wrapped.nonce d.wrapped.ciphertext h.nonce,
          take_all 48 d.wrapped.ciphertext (omega (arith, h)),
        ))

parts_of :
    (rest : Bytes)
    → length rest ≡ 88
    → take 16 rest ++ (take 24 (drop 16 rest) ++ take 48 (drop 40 rest)) ≡ rest
parts_of rest h = rw (
  take_all 48 (drop 40 rest) (omega (arith, length-drop 40 rest)),
  ← drop-drop 24 16 rest,
  take-append-drop 24 (drop 16 rest),
  take-append-drop 16 rest,
)

abbrev decoded : Bytes → KeystoreData
decoded buf = record {
  salt = take 16 (drop 5 buf);
  wrapped = record { nonce = take 24 (drop 21 buf); ciphertext = take 48 (drop 45 buf) };
}

-- The three checks, with the tests as variables.
checked :
    {A : Type 0} (p q r : Bool) (e₁ e₂ e₃ : Error) {x y : A}
    → (if not p then err e₁ else if not q then err e₂ else if not r then err e₃ else ok x) ≡ ok y
    → (p ≡ true) × (q ≡ true) × (r ≡ true) × (x ≡ y)
checked p q r e₁ e₂ e₃ h = ground arith

header :
    (buf : Bytes)
    → take 4 buf ≡ magic
    → get_or buf 4 0 ≡ version
    → 4 < length buf
    → buf ≡ magic ++ version ∷ drop 5 buf
header (a ∷ b ∷ c ∷ e ∷ v ∷ rest) m w l = cc (m, w)
header [] m w l = absurd (omega arith)
header (a ∷ []) m w l = absurd (omega arith)
header (a ∷ b ∷ []) m w l = absurd (omega arith)
header (a ∷ b ∷ c ∷ []) m w l = absurd (omega arith)
header (a ∷ b ∷ c ∷ e ∷ []) m w l = absurd (omega arith)

encode-decoded :
    (buf : Bytes)
    → length buf ≡ file_size
    → take 4 buf ≡ magic
    → get_or buf 4 0 ≡ version
    → encode (decoded buf) ≡ buf
unfolding encode
encode-decoded buf l m w =
    rw
      (
        ← drop-drop 16 5 buf,
        ← drop-drop 40 5 buf,
        parts_of (drop 5 buf) (omega (arith, length-drop 5 buf)),
      )
      (sym (header buf m w (omega arith)))

-- What decodes is the encoding of the result.
pub encode-decode : (buf : Bytes) (d : KeystoreData) → decode buf ≡ ok d → encode d ≡ buf
unfolding decode
encode-decode buf d h =
    let (l, m, w, e) =
      checked (length buf == file_size) (take 4 buf == magic) (get_or buf 4 0 == version) _ _ _ h in
    ap encode (sym e)
    ∙ encode-decoded buf ((nat_beq_iff (length buf) file_size).0 l)
        ((bytes_beq_iff (take 4 buf) magic).0 m) ((nat_beq_iff (get_or buf 4 0) version).0 w)
