-- ===== src/HttpClient/Defs.antt =====
-- HttpClient's methods and parse_http_response. Each request opens a connection of its own.
use eternal_blue.Prelude.{
  ℕ, suc, ◌+◌, ◌-◌, Bytes, codes, ◌==◌, ℕ-tested, Bool, true, false, Option, none, some, List, [],
  ◌∷◌, ◌++◌, ◌&&◌, if◌then◌else◌, is_empty, length, take, drop,
}
use eternal_blue.Prelude.Int.{ℤ}
use eternal_blue.Prelude.Decimal.{to_string, stoi}
use eternal_blue.Prelude.Exec.{Exec, Result, ok, err, http_error, ◌>>◌}
use eternal_blue.TlsConnection.{Network, TlsConnection, connect, write, read_all}

-- What each connection meets, by all that was written to the connections before it.
pub record Internet : Type 0 where
  pub session : List Bytes → Network

-- `log` is what was written to the connections so far, oldest first.
pub record HttpClient : Type 0 where
  pub host : Bytes
  pub port : Bytes
  pub ca_bundle : Bytes
  pub token : Bytes
  pub log : List Bytes

pub record HttpResponse : Type 0 where
  pub status_code : ℤ
  pub body : Bytes

abbrev pub crlf : Bytes
crlf = 13 ∷ 10 ∷ []

abbrev pub blank_line : Bytes
blank_line = crlf ++ crlf

abbrev pub joined : List Bytes → Bytes
joined [] = []
joined (text ∷ texts) = text ++ joined texts

-- The stream of `request`.
unfoldable pub request_text : HttpClient → Bytes → Bytes → Bytes → Bytes
unfolding to_string
request_text client method path body = joined (
    method
    ∷ codes " "
    ∷ path
    ∷ codes " HTTP/1.1"
    ∷ crlf
    ∷ codes "Host: "
    ∷ client.host
    ∷ crlf
    ∷ codes "User-Agent: eternal-blue/0.1"
    ∷ crlf
    ∷ codes "Accept: application/json"
    ∷ crlf
    ∷ codes "Connection: close"
    ∷ crlf
    ∷ (if is_empty client.token
        then []
        else joined (codes "Authorization: Bearer " ∷ client.token ∷ crlf ∷ []))
    ∷ (if is_empty body
        then []
        else joined (
            codes "Content-Type: application/json"
            ∷ crlf
            ∷ codes "Content-Length: "
            ∷ to_string (length body)
            ∷ crlf
            ∷ []))
    ∷ crlf
    ∷ body
    ∷ [])

abbrev pub starts_with : Bytes → Bytes → Bool
starts_with [] text = true
starts_with (c ∷ needle) [] = false
starts_with (c ∷ needle) (d ∷ text) = c == d && starts_with needle text

-- std::string_view::find, from the start
unfoldable pub find : Bytes → Bytes → Option ℕ
find needle [] = if is_empty needle then some 0 else none
find needle (c ∷ text) =
    let later = find needle text in
    if starts_with needle (c ∷ text)
    then some 0
    else elim later [ none ↦ none | some i ↦ some (suc i) ]

abbrev pub shift : ℕ → Option ℕ → Option ℕ
shift n none = none
shift n (some i) = some (n + i)

-- find(needle, from)
unfoldable pub find_from : Bytes → Bytes → ℕ → Option ℕ
unfolding find
find_from needle text from = shift from (find needle (drop from text))

abbrev pub response : Bytes → ℕ → Result ℤ → Result HttpResponse
response raw sep (err e) = err e
response raw sep (ok code) = ok (record { status_code = code; body = drop (sep + 4) raw })

-- npos + 1 wraps around to 0.
abbrev pub after : Option ℕ → ℕ
after none = 0
after (some i) = i + 1

abbrev pub status_line : Bytes → ℕ → Option ℕ → Option ℕ → Result HttpResponse
status_line raw sep (some sp1) (some sp2) =
    response raw sep (stoi (take (sp2 - sp1 - 1) (drop (sp1 + 1) raw)))
status_line raw sep _ _ = err (http_error (codes "malformed status line"))

abbrev pub parse_from : Bytes → Option ℕ → Option ℕ → Result HttpResponse
parse_from raw none sp1 = err (http_error (codes "malformed response: no header/body separator"))
parse_from raw (some sep) sp1 = status_line raw sep sp1 (find_from (codes " ") raw (after sp1))

unfoldable pub parse_http_response : Bytes → Result HttpResponse
unfolding find find_from stoi
parse_http_response raw = parse_from raw (find blank_line raw) (find (codes " ") raw)

-- A connection before its constructor runs.
abbrev pub unconnected : TlsConnection
unconnected = record {
  fd = false;
  ctx = false;
  ssl = false;
  open_sockets = 0;
  open_contexts = 0;
  open_sessions = 0;
  open_lists = 0;
  wire = [];
}

abbrev pub parsed : Result Bytes → Result HttpResponse
parsed (err e) = err e
parsed (ok raw) = parse_http_response raw

-- A connection of its own for one text.
unfoldable pub exchange : Network → HttpClient → Bytes → Result Bytes × TlsConnection
unfolding connect write read_all
exchange network client text =
    (connect network client.host client.port client.ca_bundle
        >> write network text
        >> read_all network)
      unconnected

module _ ⦃internet : Internet⦄ where
  -- The request's connection is closed when it goes out of scope.
  unfoldable pub request : Bytes → Bytes → Bytes → Exec HttpClient HttpResponse
  unfolding request_text parse_http_response exchange
  request method path body client =
      let (r, conn) =
        exchange (internet.session client.log) client (request_text client method path body) in
      (parsed r, record client { log = client.log ++ conn.wire ∷ [] })

  unfoldable pub get : Bytes → Exec HttpClient HttpResponse
  unfolding request
  get path = request (codes "GET") path []

  unfoldable pub post : Bytes → Bytes → Exec HttpClient HttpResponse
  unfolding request
  post path body = request (codes "POST") path body

  unfoldable pub del : Bytes → Exec HttpClient HttpResponse
  unfolding request
  del path = request (codes "DELETE") path []

unfoldable pub set_bearer_token : Bytes → HttpClient → HttpClient
set_bearer_token token client = record client { token = token }
