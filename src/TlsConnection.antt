-- ===== src/TlsConnection.antt =====
-- cpp_client/src/TlsConnection.cpp: the connection that each request opens. `Defs` has the methods,
-- with the outcomes of the system's and OpenSSL's calls given by a `Network`.
mod Defs
pub mod Setup
pub mod Verified
pub mod Transfer
pub mod Tests
pub use Defs.{
  Address, Lookup, lookup_failed, addresses, Send, takes, refuses, Event, received, zero_return,
  end_of_stream, want_read, want_write, read_fails, Network, TlsConnection,
}
unfoldable pub use Defs.{
  ssl_error_string, free_session, close_socket, free_context, cleanup, all_of, connect_loop,
  open_socket, open_context, configure_context, open_session, configure_session, verify_peer,
  set_up, connect, write_loop, write, read_loop, read_all,
}
