-- ===== src/HttpClient/Tests.antt =====
-- Requests on a concrete network, and a concrete response.
use eternal_blue.Prelude.{codes, some, [], ◌∷◌, ◌++◌, ◌≡◌, ◌<◌, ◌+◌, ◌^◌, refl, length, arith}
use eternal_blue.Prelude.Int.{pos}
use eternal_blue.Prelude.Exec.{ok, err, http_error}
use eternal_blue.TlsConnection.{
  connect, set_up, open_socket, open_context, configure_context, open_session, configure_session,
  verify_peer, all_of, connect_loop,
}
use eternal_blue.TlsConnection.Tests.{working}
use eternal_blue.HttpClient.Defs.{
  Internet, HttpClient, blank_line, find, parse_http_response, request_text, request, unconnected,
}
use eternal_blue.HttpClient.Find.{header_block, lacks-Without}
use eternal_blue.HttpClient.Response.{response_text, parse_http_response-response_text}
use eternal_blue.HttpClient.Request.{request_line, lines_of, request_text-framing}
use eternal_blue.HttpClient.Exchange.{request_lem}

abbrev pub client : HttpClient
client = record {
  host = codes "h";
  port = codes "443";
  ca_bundle = [];
  token = codes "t";
  log = [];
}

abbrev reliable : Internet
reliable = record { session = λ log. working }

no_separator :
    parse_http_response (codes "HTTP/1.1 200 OK")
    ≡ err (http_error (codes "malformed response: no header/body separator"))
unfolding parse_http_response find
no_separator = refl

parse_http_response-response_text_example :
    parse_http_response
      (response_text (codes "HTTP/1.1") 404 (codes "Not Found") (codes "A: b" ∷ []) (codes "{}"))
    ≡ ok (record { status_code = pos 404; body = codes "{}" })
parse_http_response-response_text_example =
    parse_http_response-response_text (codes "HTTP/1.1") 404 (codes "Not Found") (codes "A: b" ∷ [])
      (codes "{}") (lacks-Without 32 (codes "HTTP/1.1") refl)
      (lacks-Without 13 (codes "HTTP/1.1") refl) (lacks-Without 13 (codes "Not Found") refl)
      ((lacks-Without 13 (codes "A: b") refl, λ e. cc), tt) (omega arith)

request_text-framing_example :
    (request_text client (codes "POST") (codes "/p") (codes "{}")
      ≡ request_line (codes "POST") (codes "/p")
        ++ header_block (lines_of client (codes "{}")) (blank_line ++ codes "{}"))
    × (find blank_line (request_text client (codes "POST") (codes "/p") (codes "{}"))
        ≡ some (
            length (request_line (codes "POST") (codes "/p"))
            + length (header_block (lines_of client (codes "{}")) [])))
request_text-framing_example =
    request_text-framing client (codes "POST") (codes "/p") (codes "{}")
      (lacks-Without 13 (codes "POST") refl) (lacks-Without 13 (codes "/p") refl)
      (lacks-Without 13 (codes "h") refl) (lacks-Without 13 (codes "t") refl)

connected : (connect working (codes "h") (codes "443") [] unconnected).0 ≡ ok tt
unfolding connect set_up open_socket open_context configure_context open_session configure_session
    verify_peer all_of connect_loop
connected = refl

short_text : length (request_text client (codes "GET") (codes "/") []) < 2 ^ 31
unfolding request_text
short_text = omega arith

request_lem_example : request ⦃internet = reliable⦄ (codes "GET") (codes "/") [] client ≡ (
  parse_http_response (codes "ok"),
  record client { log = request_text client (codes "GET") (codes "/") [] ∷ [] },
)
request_lem_example =
    request_lem ⦃internet = reliable⦄ client (codes "GET") (codes "/") [] connected
      ((λ code e. cc), tt) short_text tt
