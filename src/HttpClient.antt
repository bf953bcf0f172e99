-- ===== src/HttpClient.antt =====
-- cpp_client/src/HttpClient.cpp: requests over TLS, each over a connection of its own. `Defs` has the
-- methods and the parser of responses.
mod Defs
mod Find
pub mod Response
pub mod Request
pub mod Exchange
pub mod Tests
pub use Defs.{Internet, HttpClient, HttpResponse}
unfoldable pub use Defs.{
  request_text, find, find_from, parse_http_response, exchange, request, get, post, del,
  set_bearer_token,
}
