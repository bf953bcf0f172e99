-- ===== src/CryptoContext/Expand.antt =====
-- HKDF-Expand against RFC 5869: T(0) is empty, T(i + 1) = HMAC(PRK, T(i) | info | i + 1), and the
-- output is the first L bytes of T(1) | T(2) | … .
use eternal_blue.Prelude.{
  ℕ, zero, suc, ◌+◌, ◌-◌, ◌*◌, ◌%◌, ◌≤◌, ◌<◌, min, Bytes, [], ◌∷◌, ◌++◌, ◌≡◌, sym, ap, ◌∙◌, ltb,
  length, take, arith, length-append, length-take, take-append, take-min-length, take-nil,
  append-nil, Bool-cases, inl, inr, ltb→lt,
}
use eternal_blue.Sodium.{Sodium}
use eternal_blue.CryptoContext.Hkdf.{hkdf_expand_loop, hkdf_expand}
use native.Mathlib.Nat.{zero-add}

module _ ⦃sodium : Sodium⦄ (prk info : Bytes) where
  pub block : ℕ → Bytes
  block zero = []
  block (suc i) = sodium.hmac_sha256 prk (block i ++ (info ++ (suc i) ∷ []))

  -- T(1) | … | T(n)
  pub blocks : ℕ → Bytes
  unfolding block
  blocks zero = []
  blocks (suc n) = blocks n ++ block (suc n)

  length-block : (i : ℕ) → length (block (suc i)) ≡ 32
  unfolding block
  length-block i = sodium.hmac_length prk (block i ++ (info ++ (suc i) ∷ []))

  length-blocks : (n : ℕ) → length (blocks n) ≡ 32 * n
  unfolding blocks
  length-blocks zero = omega arith
  length-blocks (suc n) =
      omega (arith, length-append (blocks n) (block (suc n)), length-blocks n, length-block n)

  -- One round of the loop takes the first L bytes of n blocks to those of n + 1 blocks.
  grow :
      (L n : ℕ)
      → take L (blocks n)
          ++ take (min (length (block (suc n))) (L - length (take L (blocks n)))) (block (suc n))
        ≡ take L (blocks (suc n))
  grow L n =
      let left : L - length (take L (blocks n)) ≡ L - length (blocks n) =
        omega (arith, length-take L (blocks n)) in
      rw (take-min-length (L - length (take L (blocks n))) (block (suc n)), left)
        (unfold blocks in sym (take-append L (blocks n) (block (suc n))))

  -- Once there are L bytes, more blocks make no difference.
  enough : (L n k : ℕ) → L ≤ 32 * n → take L (blocks (k + n)) ≡ take L (blocks n)
  unfolding blocks
  enough L n zero h = rw (zero-add n)
  enough L n (suc k) h =
      let shift : suc k + n ≡ suc (k + n) = omega arith in
      let none_left : L - length (blocks (k + n)) ≡ 0 = omega (arith, length-blocks (k + n)) in
      rw shift (rw (take-append, none_left, append-nil) (enough L n k h))

  finished :
      (L n N : ℕ) → n ≤ N → L ≤ length (take L (blocks n)) → take L (blocks n) ≡ take L (blocks N)
  finished L n N hn h =
      let split : N ≡ (N - n) + n = omega arith in
      rw split (sym (enough L n (N - n) (omega (arith, length-take L (blocks n), length-blocks n))))

  loop_lem :
      (fuel n N L : ℕ)
      → L ≤ length (take L (blocks n)) + fuel
      → n ≤ N
      → N ≤ 255
      → L ≤ 32 * N
      → hkdf_expand_loop fuel ((n + 1) % 256) (block n) (take L (blocks n)) prk info L
        ≡ take L (blocks N)
  unfolding hkdf_expand_loop block
  loop_lem zero n N L f hn hN hL = finished L n N hn (omega arith)
  loop_lem (suc fuel) n N L f hn hN hL = elim (Bool-cases (ltb (length (take L (blocks n))) L)) [
    | inl more ↦
        let short : 32 * n < L =
          omega (arith, ltb→lt _ _ more, length-take L (blocks n), length-blocks n) in
        let counter : (n + 1) % 256 ≡ suc n = omega arith in
        rw (more, counter)
          (ap (λ okm. hkdf_expand_loop fuel ((suc n + 1) % 256) (block (suc n)) okm prk info L)
              (grow L n)
            ∙ loop_lem fuel (suc n) N L
                (omega (
                  arith,
                  length-take L (blocks n),
                  length-blocks n,
                  length-take L (blocks (suc n)),
                  length-blocks (suc n),
                ))
                (omega arith) hN hL)
    | inr done ↦ rw done (finished L n N hn (ground arith))
  ]

  -- The output is the first L bytes of the blocks of RFC 5869, as long as its counter fits a byte:
  -- for every number N ≤ 255 of blocks that holds L bytes.
  pub hkdf_expand-blocks :
      (L N : ℕ) → N ≤ 255 → L ≤ 32 * N → hkdf_expand prk info L ≡ take L (blocks N)
  unfolding hkdf_expand block
  hkdf_expand-blocks L N hN hL =
      let start : take L (blocks 0) ≡ [] = unfold blocks in take-nil L in
      rw start at (loop_lem L 0 N L (omega arith) (omega arith) hN hL)

  length_loop :
      (fuel counter L : ℕ) (t okm : Bytes)
      → L ≤ length okm + fuel
      → length okm ≤ L
      → length (hkdf_expand_loop fuel counter t okm prk info L) ≡ L
  unfolding hkdf_expand_loop
  length_loop zero counter L t okm f h = omega arith
  length_loop (suc fuel) counter L t okm f h = elim (Bool-cases (ltb (length okm) L)) [
    | inl more ↦
        let t' = sodium.hmac_sha256 prk (t ++ (info ++ counter ∷ [])) in
        let n = min (length t') (L - length okm) in
        let sizes : length (okm ++ take n t') ≡ length okm + n =
          omega (arith, length-append okm (take n t'), length-take n t') in
        let block_size : length t' ≡ 32 = sodium.hmac_length prk (t ++ (info ++ counter ∷ [])) in
        let room : length okm < L = ltb→lt _ _ more in
        rw more (
          length_loop fuel ((counter + 1) % 256) L t' (okm ++ take n t') (omega arith)
            (omega arith))
    | inr done ↦ rw done (ground arith)
  ]

  -- It always has L bytes, whatever L is.
  pub length-hkdf_expand : (L : ℕ) → length (hkdf_expand prk info L) ≡ L
  unfolding hkdf_expand
  length-hkdf_expand L = length_loop L 1 L [] [] (omega arith) (omega arith)
