-- ===== src/HttpClient/Request.antt =====
-- What a request sends, and to whom.
use eternal_blue.Prelude.{
  ℕ, suc, ◌+◌, Bytes, codes, some, List, [], ◌∷◌, ◌++◌, ◌≡◌, refl, ap, sym, ◌∙◌, length, All, arith,
  append_assoc, is_empty, if◌then◌else◌, append-nil,
}
use eternal_blue.Prelude.Decimal.{to_string, to_string-IsDigits}
use eternal_blue.HttpClient.Defs.{HttpClient, crlf, blank_line, find, joined, request_text}
use eternal_blue.HttpClient.Find.{
  Without, Without-append, lacks-Without, IsDigits-Without, IsHeaderLine, header_block,
  find-blank_line,
}

-- The header lines for the token, and those for the body.
abbrev pub token_lines : Bytes → List Bytes
token_lines [] = []
token_lines (c ∷ token) = (codes "Authorization: Bearer " ++ c ∷ token) ∷ []

abbrev pub body_lines : Bytes → List Bytes
body_lines [] = []
body_lines (b ∷ body) =
    codes "Content-Type: application/json"
    ∷ (codes "Content-Length: " ++ to_string (length (b ∷ body)))
    ∷ []

abbrev pub lines_of : HttpClient → Bytes → List Bytes
lines_of client body =
    (codes "Host: " ++ client.host)
      ∷ codes "User-Agent: eternal-blue/0.1"
      ∷ codes "Accept: application/json"
      ∷ codes "Connection: close"
      ∷ token_lines client.token
    ++ body_lines body

abbrev pub request_line : Bytes → Bytes → Bytes
request_line method path = method ++ 32 ∷ (path ++ codes " HTTP/1.1")

header_block-append :
    (lines more : List Bytes) (tail : Bytes)
    → header_block (lines ++ more) tail ≡ header_block lines (header_block more tail)
header_block-append [] more tail = refl
header_block-append (line ∷ lines) more tail =
    ap (λ t. crlf ++ (line ++ t)) (header_block-append lines more tail)

token_block :
    (token tail : Bytes)
    → crlf
        ++ ((if is_empty token
              then []
              else joined (codes "Authorization: Bearer " ∷ token ∷ crlf ∷ []))
            ++ tail)
      ≡ header_block (token_lines token) (crlf ++ tail)
token_block [] tail = refl
token_block (c ∷ token) tail = rw (append_assoc token crlf tail) refl

body_block :
    (body : Bytes)
    → crlf
        ++ ((if is_empty body
              then []
              else joined (
                  codes "Content-Type: application/json"
                  ∷ crlf
                  ∷ codes "Content-Length: "
                  ∷ to_string (length body)
                  ∷ crlf
                  ∷ []))
            ++ (crlf ++ (body ++ [])))
      ≡ header_block (body_lines body) (blank_line ++ body)
body_block [] = refl
body_block (b ∷ body) =
    rw
      (
        append_assoc (to_string (suc (length body))) crlf (crlf ++ (b ∷ (body ++ []))),
        append-nil body,
      )
      refl

module _ (client : HttpClient) (method path body : Bytes) where
  -- The text is its lines, in front of a blank line and the body.
  request_text-lines :
      request_text client method path body
      ≡ request_line method path ++ header_block (lines_of client body) (blank_line ++ body)
  unfolding request_text
  request_text-lines =
      let tail = blank_line ++ body in
      let lines = header_block (token_lines client.token ++ body_lines body) tail in
      let e =
        header_block-append (token_lines client.token) (body_lines body) tail
        ∙ ap (header_block (token_lines client.token)) (sym (body_block body))
        ∙ sym (token_block client.token _) in
      rw
        (
          append_assoc method (32 ∷ (path ++ codes " HTTP/1.1"))
              (header_block (lines_of client body) tail),
          append_assoc path (codes " HTTP/1.1") (header_block (lines_of client body) tail),
          e,
        )
        refl

  request_line-Without : Without 13 method → Without 13 path → Without 13 (request_line method path)
  request_line-Without m p =
      let space = lacks-Without 13 (codes " ") refl in
      Without-append 13 method (32 ∷ (path ++ codes " HTTP/1.1")) m (
        space.0,
        Without-append 13 path (codes " HTTP/1.1") p (lacks-Without 13 (codes " HTTP/1.1") refl),
      )

-- A name and a value.
header_line :
    (c : ℕ) (name value : Bytes)
    → Without 13 (c ∷ name)
    → Without 13 value
    → IsHeaderLine ((c ∷ name) ++ value)
header_line c name value h k = (Without-append 13 (c ∷ name) value h k, λ e. cc)

token_lines-AreHeaderLines :
    (token : Bytes) → Without 13 token → All IsHeaderLine (token_lines token)
token_lines-AreHeaderLines [] h = tt
token_lines-AreHeaderLines (c ∷ token) h = (
  header_line b'A' (codes "uthorization: Bearer ") (c ∷ token)
      (lacks-Without 13 (codes "Authorization: Bearer ") refl) h,
  tt,
)

body_lines-AreHeaderLines : (body : Bytes) → All IsHeaderLine (body_lines body)
body_lines-AreHeaderLines [] = tt
body_lines-AreHeaderLines (b ∷ body) =
    let size = to_string (length (b ∷ body)) in
    let digits = IsDigits-Without 13 (omega arith) size (to_string-IsDigits (length (b ∷ body))) in
    (
      (lacks-Without 13 (codes "Content-Type: application/json") refl, λ e. cc),
      (
        header_line b'C' (codes "ontent-Length: ") size
            (lacks-Without 13 (codes "Content-Length: ") refl) digits,
        tt,
      ),
    )

All-append : (P : Bytes → Type 0) (xs ys : List Bytes) → All P xs → All P ys → All P (xs ++ ys)
All-append P [] ys h k = k
All-append P (x ∷ xs) ys h k = (h.0, All-append P xs ys h.1 k)

lines_of-AreHeaderLines :
    (client : HttpClient) (body : Bytes)
    → Without 13 client.host
    → Without 13 client.token
    → All IsHeaderLine (lines_of client body)
lines_of-AreHeaderLines client body h t = (
  header_line b'H' (codes "ost: ") client.host (lacks-Without 13 (codes "Host: ") refl) h,
  (
    (lacks-Without 13 (codes "User-Agent: eternal-blue/0.1") refl, λ e. cc),
    (
      (lacks-Without 13 (codes "Accept: application/json") refl, λ e. cc),
      (
        (lacks-Without 13 (codes "Connection: close") refl, λ e. cc),
        All-append IsHeaderLine (token_lines client.token) (body_lines body)
            (token_lines-AreHeaderLines client.token t) (body_lines-AreHeaderLines body),
      ),
    ),
  ),
)

-- If the method, the path, the host and the token have no carriage return, the text of a request is
-- its request line, the header lines (a bearer token if and only if one is set; a content type and
-- the length of the body if and only if the body is not empty), a blank line, and the body; the
-- first blank line of the text is the one in front of the body.
pub request_text-framing :
    (client : HttpClient) (method path body : Bytes)
    → Without 13 method
    → Without 13 path
    → Without 13 client.host
    → Without 13 client.token
    → (request_text client method path body
        ≡ request_line method path ++ header_block (lines_of client body) (blank_line ++ body))
      × (find blank_line (request_text client method path body)
          ≡ some
              (length (request_line method path) + length (header_block (lines_of client body) [])))
request_text-framing client method path body m p h t =
    let e = request_text-lines client method path body in
    (
      e,
      rw e (
          find-blank_line (request_line method path) (lines_of client body) body
            (request_line-Without client method path body m p)
            (lines_of-AreHeaderLines client body h t)),
    )
