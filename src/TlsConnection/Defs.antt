-- ===== src/TlsConnection/Defs.antt =====
-- The operating system and OpenSSL as the outcomes of their calls, and the methods of TlsConnection.
use eternal_blue.Prelude.{
  ℕ, zero, suc, ◌+◌, ◌-◌, ◌%◌, ◌^◌, min, Bytes, codes, Bool, true, false, Option, none, some, List,
  [], ◌∷◌, ◌++◌, if◌then◌else◌, is_empty, c_text, length, take, drop, ltb, ℕ-tested,
}
use eternal_blue.Prelude.Decimal.{to_string}
use eternal_blue.Prelude.Exec.{Exec, Result, ok, err, tls_error, lift, ◌>>◌}

-- An address that getaddrinfo found: whether socket() and connect() succeed for it.
pub record Address : Type 0 where
  pub has_socket : Bool
  pub connects : Bool

pub data Lookup : Type 0 where
  lookup_failed : Bytes → Lookup
  addresses : List Address → Lookup

-- SSL_write: it takes n + 1 bytes or what there is, or fails with a code.
pub data Send : Type 0 where
  takes : ℕ → Send
  refuses : ℕ → Send

-- SSL_read: a byte and those behind it, a clean close, an end of the TCP stream, a wish to be
-- called again, or a failure with a code.
pub data Event : Type 0 where
  received : ℕ → Bytes → Event
  zero_return : Event
  end_of_stream : Event
  want_read : Event
  want_write : Event
  read_fails : ℕ → Event

-- What one connection meets. The peer's events may depend on all that was written to it; after the
-- last of them it has closed the connection. After the last of `sends` every write is taken whole.
pub record Network : Type 0 where
  pub resolve : Bytes → Bytes → Lookup
  pub new_context : Bool
  pub sets_min_version : Bool
  pub loads_system_authorities : Bool
  pub loads_authorities : Bytes → Bool
  pub new_session : Bool
  pub sets_descriptor : Bool
  pub sets_server_name : Bytes → Bool
  pub sets_verified_host : Bytes → Bool
  -- SSL_connect with its checks of the peer
  pub handshake : Bool
  -- SSL_get_verify_result, when it is not X509_V_OK
  pub verify_failure : Option Bytes
  pub sends : List Send
  pub events : Bytes → List Event
  -- what is in the error queue when a call fails, and the code of a write with a length below 1
  pub error_queue : List Bytes
  pub length_code : ℕ

-- The members that are set (fd_ != -1, ctx_ and ssl_ not null), and how many sockets, contexts,
-- sessions and address lists the process has open. `wire` is what SSL_write took.
pub record TlsConnection : Type 0 where
  pub fd : Bool
  pub ctx : Bool
  pub ssl : Bool
  pub open_sockets : ℕ
  pub open_contexts : ℕ
  pub open_sessions : ℕ
  pub open_lists : ℕ
  pub wire : Bytes

abbrev queue_text : List Bytes → Bytes
queue_text [] = []
queue_text (e ∷ queue) = codes "; openssl: " ++ e ++ queue_text queue

unfoldable pub ssl_error_string : List Bytes → Bytes → Bytes
ssl_error_string queue prefix = prefix ++ queue_text queue

unfoldable pub free_session : TlsConnection → TlsConnection
free_session s = if s.ssl then record s { ssl = false; open_sessions = s.open_sessions - 1 } else s

unfoldable pub close_socket : TlsConnection → TlsConnection
close_socket s = if s.fd then record s { fd = false; open_sockets = s.open_sockets - 1 } else s

unfoldable pub free_context : TlsConnection → TlsConnection
free_context s = if s.ctx then record s { ctx = false; open_contexts = s.open_contexts - 1 } else s

unfoldable pub cleanup : TlsConnection → TlsConnection
unfolding free_session close_socket free_context
cleanup s = free_context (close_socket (free_session s))

-- The loop over the addresses: `true` when fd is connected.
unfoldable pub connect_loop : List Address → TlsConnection → Bool × TlsConnection
connect_loop [] s = (false, s)
connect_loop (a ∷ rest) s =
    let skipped = connect_loop rest s in
    let closed = connect_loop rest (record s { open_sockets = s.open_sockets + 1 - 1 }) in
    if a.has_socket
    then if a.connects then (true, record s { open_sockets = s.open_sockets + 1 }) else closed
    else skipped

-- One call after the other: the first that fails throws.
unfoldable pub all_of : List (Bool × Bytes) → Result (Unit {0})
all_of [] = ok tt
all_of ((succeeds, text) ∷ calls) = if succeeds then all_of calls else err (tls_error text)

abbrev pub connected : Bytes → Bytes → Bool × TlsConnection → Result (Unit {0}) × TlsConnection
connected host port (true, s) = (ok tt, record s { fd = true; open_lists = s.open_lists - 1 })
connected host port (false, s) = (
  err (tls_error (codes "Failed to connect to " ++ host ++ codes ":" ++ port)),
  record s { open_lists = s.open_lists - 1 },
)

abbrev pub connect_to : Bytes → Bytes → Lookup → Exec TlsConnection (Unit {0})
connect_to host port (lookup_failed text) s = (err (tls_error (codes "getaddrinfo: " ++ text)), s)
connect_to host port (addresses list) s =
    connected host port (connect_loop list (record s { open_lists = s.open_lists + 1 }))

unfoldable pub open_socket : Network → Bytes → Bytes → Exec TlsConnection (Unit {0})
unfolding connect_loop c_text
open_socket network host port = connect_to host port (network.resolve (c_text host) (c_text port))

unfoldable pub open_context : Network → Exec TlsConnection (Unit {0})
open_context network s =
    if network.new_context
    then (ok tt, record s { ctx = true; open_contexts = s.open_contexts + 1 })
    else (err (tls_error (codes "SSL_CTX_new failed")), s)

unfoldable pub configure_context : Network → Bytes → Result (Unit {0})
unfolding all_of c_text
configure_context network ca_bundle = all_of (
    (network.sets_min_version, codes "SSL_CTX_set_min_proto_version failed")
    ∷ (network.loads_system_authorities, codes "SSL_CTX_set_default_verify_paths failed")
    ∷ (
      if is_empty ca_bundle then true else network.loads_authorities (c_text ca_bundle),
      codes "SSL_CTX_load_verify_locations failed",
    )
    ∷ [])

unfoldable pub open_session : Network → Exec TlsConnection (Unit {0})
open_session network s =
    if network.new_session
    then (ok tt, record s { ssl = true; open_sessions = s.open_sessions + 1 })
    else (err (tls_error (codes "SSL_new failed")), s)

unfoldable pub configure_session : Network → Bytes → Result (Unit {0})
unfolding all_of c_text
configure_session network host = all_of (
    (network.sets_descriptor, codes "SSL_set_fd failed")
    ∷ (network.sets_server_name (c_text host), codes "SSL_set_tlsext_host_name failed")
    ∷ (network.sets_verified_host host, codes "X509_VERIFY_PARAM_set1_host failed")
    ∷ [])

abbrev check_verified : Option Bytes → Result (Unit {0})
check_verified none = ok tt
check_verified (some text) = err (tls_error (codes "SSL_get_verify_result: " ++ text))

unfoldable pub verify_peer : Network → Result (Unit {0})
unfolding ssl_error_string
verify_peer network =
    if network.handshake
    then check_verified network.verify_failure
    else err (tls_error (ssl_error_string network.error_queue (codes "SSL_connect failed")))

-- The try block.
unfoldable pub set_up : Network → Bytes → Bytes → Bytes → Exec TlsConnection (Unit {0})
unfolding open_socket open_context configure_context open_session configure_session verify_peer
    connect_loop c_text ssl_error_string all_of
set_up network host port ca_bundle =
    open_socket network host port
    >> open_context network
    >> lift (configure_context network ca_bundle)
    >> open_session network
    >> lift (configure_session network host)
    >> lift (verify_peer network)

abbrev pub clean_if_thrown : Result (Unit {0}) × TlsConnection → Result (Unit {0}) × TlsConnection
clean_if_thrown (ok _, s) = (ok tt, s)
clean_if_thrown (err e, s) = (err e, cleanup s)

-- The constructor: what was thrown goes on after the cleanup.
unfoldable pub connect : Network → Bytes → Bytes → Bytes → Exec TlsConnection (Unit {0})
unfolding set_up cleanup
connect network host port ca_bundle s = clean_if_thrown (set_up network host port ca_bundle s)

-- static_cast<int> of what is left: not positive from 2^31 to 2^32.
abbrev pub offered : ℕ → ℕ
offered size = if ltb (size % 2 ^ 32) (2 ^ 31) then size % 2 ^ 32 else 0

abbrev pub write_failed : Network → ℕ → Result (Unit {0})
write_failed network code = err (
    tls_error
      (ssl_error_string network.error_queue (codes "SSL_write failed: code " ++ to_string code)))

abbrev pub next_send : List Send → Send × List Send
next_send [] = (takes (2 ^ 31), [])
next_send (send ∷ sends) = (send, sends)

-- A turn that takes a number of bytes, and what the turns after it come to.
abbrev pub write_turn :
    Result (Unit {0}) → ℕ → Bytes → Result (Unit {0}) × Bytes → Result (Unit {0}) × Bytes
write_turn failed zero rest later = (failed, [])
write_turn failed (suc n) rest (r, taken) = (r, take (suc n) rest ++ taken)

-- while (total < data.size()), `rest` still to be written. Each turn takes a byte, so the number of
-- bytes is fuel enough.
unfoldable pub write_loop : Network → ℕ → List Send → Bytes → Result (Unit {0}) × Bytes
unfolding ssl_error_string to_string
write_loop network fuel sends [] = (ok tt, [])
write_loop network zero sends (b ∷ rest) = (ok tt, [])
write_loop network (suc fuel) sends (b ∷ rest) =
    let (send, sends') = next_send sends in
    elim send [
      | refuses code ↦ (write_failed network code, [])
      | takes n ↦
          let taken = min (suc n) (offered (length (b ∷ rest))) in
          write_turn (write_failed network network.length_code) taken (b ∷ rest)
            (write_loop network fuel sends' (drop taken (b ∷ rest)))
    ]

unfoldable pub write : Network → Bytes → Exec TlsConnection Unit
unfolding write_loop
write network data_ s =
    let (r, taken) = write_loop network (length data_) network.sends data_ in
    (r, record s { wire = s.wire ++ taken })

-- SSL_ERROR_SYSCALL with n == 0 is `end_of_stream`.
unfoldable pub read_loop : List Bytes → List Event → Bytes → Result Bytes
unfolding ssl_error_string to_string
read_loop queue [] out = ok out
read_loop queue (received b more ∷ events) out = read_loop queue events (out ++ b ∷ more)
read_loop queue (zero_return ∷ events) out = ok out
read_loop queue (end_of_stream ∷ events) out = ok out
read_loop queue (want_read ∷ events) out = read_loop queue events out
read_loop queue (want_write ∷ events) out = read_loop queue events out
read_loop queue (read_fails code ∷ events) out =
    err (tls_error (ssl_error_string queue (codes "SSL_read failed: code " ++ to_string code)))

unfoldable pub read_all : Network → Exec TlsConnection Bytes
unfolding read_loop
read_all network s = (read_loop network.error_queue (network.events s.wire) [], s)
