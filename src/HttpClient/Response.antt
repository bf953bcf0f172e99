-- ===== src/HttpClient/Response.antt =====
-- What parse_http_response makes of a well-formed response.
use eternal_blue.Prelude.{
  ℕ, ◌+◌, ◌-◌, ◌<◌, ◌^◌, Bytes, codes, some, List, [], ◌∷◌, ◌++◌, ◌≡◌, refl, length, take, drop,
  take_exact, drop_past, All, arith, append_assoc,
}
use eternal_blue.Prelude.Int.{pos}
use eternal_blue.Prelude.Decimal.{to_string, stoi-to_string, to_string-IsDigits}
use eternal_blue.Prelude.Exec.{ok}
use eternal_blue.HttpClient.Defs.{blank_line, find, find_from, parse_http_response}
use eternal_blue.HttpClient.Find.{
  Without, Without-append, IsDigits-Without, IsHeaderLine, header_block, find_byte, find-blank_line,
  drop-header_block,
}

-- A response with its status line in three parts.
abbrev pub response_text : Bytes → ℕ → Bytes → List Bytes → Bytes → Bytes
response_text version code reason lines body =
    version ++ 32 ∷ (to_string code ++ 32 ∷ (reason ++ header_block lines (blank_line ++ body)))

abbrev pub first_line : Bytes → ℕ → Bytes → Bytes
first_line version code reason = version ++ 32 ∷ (to_string code ++ 32 ∷ reason)

module _ (version : Bytes) (code : ℕ) (reason : Bytes) (lines : List Bytes) (body : Bytes) where
  first_line-append :
      (tail : Bytes)
      → first_line version code reason ++ tail
        ≡ version ++ 32 ∷ (to_string code ++ 32 ∷ (reason ++ tail))
  first_line-append tail = rw (append_assoc, append_assoc) refl

  first_line-Without :
      Without 13 version → Without 13 reason → Without 13 (first_line version code reason)
  first_line-Without h k =
      let digits = IsDigits-Without 13 (omega arith) (to_string code) (to_string-IsDigits code) in
      Without-append 13 version _ h
        (ground arith, Without-append 13 (to_string code) _ digits (ground arith, k))

  separator :
      Without 13 version
      → Without 13 reason
      → All IsHeaderLine lines
      → find blank_line (response_text version code reason lines body)
        ≡ some (length (first_line version code reason) + length (header_block lines []))
  separator h k l =
      rw (← first_line-append (header_block lines (blank_line ++ body)))
        (find-blank_line (first_line version code reason) lines body (first_line-Without h k) l)

  body_behind :
      drop
        (length (first_line version code reason) + length (header_block lines []) + 4)
        (response_text version code reason lines body)
      ≡ body
  body_behind =
      let n = length (first_line version code reason) in
      let m = length (header_block lines []) in
      let e : n + m + 4 ≡ n + (m + 4) = omega arith in
      rw
        (
          ← first_line-append (header_block lines (blank_line ++ body)),
          e,
          drop_past,
          drop-header_block,
        )
        refl

  behind_version :
      drop (length version + 1) (response_text version code reason lines body)
      ≡ to_string code ++ 32 ∷ (reason ++ header_block lines (blank_line ++ body))
  behind_version = drop_past version _ 1

  second_space :
      find_from (codes " ") (response_text version code reason lines body) (length version + 1)
      ≡ some (length version + 1 + length (to_string code))
  unfolding find_from
  second_space =
      let digits = IsDigits-Without 32 (omega arith) (to_string code) (to_string-IsDigits code) in
      rw (behind_version, find_byte 32 (to_string code) _ digits) refl

  -- A response whose version has no space, whose first line has no carriage return and whose header
  -- lines are not empty and have none, with a status code below 2^31, is parsed into that code and
  -- the body, whatever bytes the body has.
  pub parse_http_response-response_text :
      Without 32 version
      → Without 13 version
      → Without 13 reason
      → All IsHeaderLine lines
      → code < 2 ^ 31
      → parse_http_response (response_text version code reason lines body)
        ≡ ok (record { status_code = pos code; body = body })
  unfolding parse_http_response
  parse_http_response-response_text spaces h k l small =
      let raw = response_text version code reason lines body in
      let n = length version in
      let e : n + 1 + length (to_string code) - n - 1 ≡ length (to_string code) = omega arith in
      let digits : take (n + 1 + length (to_string code) - n - 1) (drop (n + 1) raw)
          ≡ to_string code =
        rw (e, behind_version) (take_exact (length (to_string code)) (to_string code) _ refl) in
      rw
        (
          separator h k l,
          find_byte 32 version _ spaces,
          second_space,
          digits,
          stoi-to_string code small,
          body_behind,
        )
        refl
