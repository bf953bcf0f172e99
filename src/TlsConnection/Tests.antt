-- ===== src/TlsConnection/Tests.antt =====
-- Connections on concrete networks.
use eternal_blue.Prelude.{codes, true, false, none, some, [], ◌∷◌, ◌≡◌, refl}
use eternal_blue.Prelude.Exec.{ok, tls_error}
use eternal_blue.TlsConnection.Defs.{
  addresses, Network, TlsConnection, takes, received, want_read, end_of_stream, connect,
  connect_loop, set_up, open_socket, open_context, configure_context, open_session,
  configure_session, verify_peer, all_of,
}
use eternal_blue.TlsConnection.Setup.{connect-IsReleased, IsReleased}
use eternal_blue.TlsConnection.Verified.{IsVerified, connect-IsVerified}

-- A socket that does not connect comes first. Writes and reads are partial.
abbrev pub working : Network
working = record {
  resolve = λ host port. addresses (
      record { has_socket = true; connects = false }
      ∷ record { has_socket = true; connects = true }
      ∷ []);
  new_context = true;
  sets_min_version = true;
  loads_system_authorities = true;
  loads_authorities = λ path. true;
  new_session = true;
  sets_descriptor = true;
  sets_server_name = λ name. true;
  sets_verified_host = λ name. true;
  handshake = true;
  verify_failure = none;
  sends = takes 1 ∷ [];
  events = λ wire. received b'o' [] ∷ want_read ∷ received b'k' [] ∷ end_of_stream ∷ [];
  error_queue = [];
  length_code = 1;
}

-- The certificate does not verify.
abbrev impostor : Network
impostor = record working { verify_failure = some (codes "self-signed certificate") }

abbrev pub fresh : TlsConnection
fresh = record {
  fd = false;
  ctx = false;
  ssl = false;
  open_sockets = 0;
  open_contexts = 0;
  open_sessions = 0;
  open_lists = 0;
  wire = [];
}

connects : (connect working (codes "h") (codes "443") [] fresh).0 ≡ ok tt
unfolding connect set_up open_socket open_context configure_context open_session configure_session
    verify_peer all_of connect_loop
connects = refl

connect-IsReleased_example :
    IsReleased fresh (connect impostor (codes "h") (codes "443") [] fresh).1
unfolding connect set_up open_socket open_context configure_context open_session configure_session
    verify_peer all_of connect_loop
connect-IsReleased_example =
    connect-IsReleased impostor (codes "h") (codes "443") [] fresh refl refl refl
      (tls_error (codes "SSL_get_verify_result: self-signed certificate")) refl

connect-IsVerified_example : IsVerified working (codes "h") []
connect-IsVerified_example = connect-IsVerified working (codes "h") (codes "443") [] fresh connects
