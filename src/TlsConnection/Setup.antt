-- ===== src/TlsConnection/Setup.antt =====
-- What the constructor opens, and when it succeeds.
use eternal_blue.Prelude.{
  ℕ, ◌+◌, ◌-◌, Bytes, Bool, true, false, List, [], ◌∷◌, ◌≡◌, refl, ap, ◌∙◌, c_text, arith,
}
use eternal_blue.Prelude.Exec.{Result, Error, ok, err, lift, ◌>>◌, bind-keeps}
use eternal_blue.TlsConnection.Defs.{
  Address, Lookup, lookup_failed, addresses, Network, TlsConnection, free_session, close_socket,
  free_context, cleanup, connect_loop, connect_to, open_socket, open_context, configure_context,
  open_session, configure_session, verify_peer, set_up, connect, clean_if_thrown,
}

-- One when the member is set.
abbrev pub held : Bool → ℕ
held true = 1
held false = 0

-- Of sockets, contexts, sessions and address lists the process holds those that it held at `base`,
-- and the ones that the members name.
pub record IsBalanced (base s : TlsConnection) : Type 0 where
  pub sockets : s.open_sockets ≡ base.open_sockets + held s.fd
  pub contexts : s.open_contexts ≡ base.open_contexts + held s.ctx
  pub sessions : s.open_sessions ≡ base.open_sessions + held s.ssl
  pub lists : s.open_lists ≡ base.open_lists

cleanup-IsBalanced :
    (base s : TlsConnection)
    → IsBalanced base s
    → IsBalanced base (cleanup s)
      × ((cleanup s).fd ≡ false)
      × ((cleanup s).ctx ≡ false)
      × ((cleanup s).ssl ≡ false)
unfolding cleanup free_session close_socket free_context
cleanup-IsBalanced base s h = ground arith

-- Of all members and counts the loop changes the number of sockets alone, by the one it returns.
connect_loop-held :
    (list : List Address) (s : TlsConnection)
    → (connect_loop list s).1
      ≡ record s { open_sockets = s.open_sockets + held (connect_loop list s).0 }
unfolding connect_loop
connect_loop-held [] s = ground arith
connect_loop-held (a ∷ rest) s =
    let again : s.open_sockets + 1 - 1 ≡ s.open_sockets = omega arith in
    rw again (ground (arith, connect_loop-held rest s))

connect_loop-counts :
    (list : List Address) (s : TlsConnection)
    → let (found, s') = connect_loop list s in
      (s'.open_sockets ≡ s.open_sockets + held found)
      × (s'.open_contexts ≡ s.open_contexts)
      × (s'.open_sessions ≡ s.open_sessions)
      × (s'.open_lists ≡ s.open_lists)
      × (s'.fd ≡ s.fd)
      × (s'.ctx ≡ s.ctx)
      × (s'.ssl ≡ s.ssl)
connect_loop-counts list s =
    let e = connect_loop-held list s in
    (
      ap (λ x. x.open_sockets) e,
      ap (λ x. x.open_contexts) e,
      ap (λ x. x.open_sessions) e,
      ap (λ x. x.open_lists) e,
      ap (λ x. x.fd) e,
      ap (λ x. x.ctx) e,
      ap (λ x. x.ssl) e,
    )

connect_to-IsBalanced :
    (host port : Bytes) (look : Lookup) (s : TlsConnection)
    → s.fd ≡ false
    → s.ctx ≡ false
    → s.ssl ≡ false
    → IsBalanced s (connect_to host port look s).1
      × ((connect_to host port look s).1.ctx ≡ false)
      × ((connect_to host port look s).1.ssl ≡ false)
connect_to-IsBalanced host port (lookup_failed text) s f c t = ground arith
connect_to-IsBalanced host port (addresses list) s f c t =
    ground (arith, connect_loop-counts list (record s { open_lists = s.open_lists + 1 }))

module _ (network : Network) (base s : TlsConnection) (balanced : IsBalanced base s) where
  open_context-IsBalanced :
      s.ctx ≡ false
      → IsBalanced base (open_context network s).1 × ((open_context network s).1.ssl ≡ s.ssl)
  unfolding open_context
  open_context-IsBalanced c = ground arith

  open_session-IsBalanced : s.ssl ≡ false → IsBalanced base (open_session network s).1
  unfolding open_session
  open_session-IsBalanced c = ground arith

module _ (network : Network) (host port ca_bundle : Bytes) where
  set_up-IsBalanced :
      (s : TlsConnection)
      → s.fd ≡ false
      → s.ctx ≡ false
      → s.ssl ≡ false
      → IsBalanced s (set_up network host port ca_bundle s).1
  unfolding set_up open_socket
  set_up-IsBalanced s f c t =
      let socket = open_socket network host port in
      let context = socket >> open_context network in
      let configured = context >> lift (configure_context network ca_bundle) in
      let session = configured >> open_session network in
      let looked =
        connect_to-IsBalanced host port (network.resolve (c_text host) (c_text port)) s f c t in
      let BalancedFor : TlsConnection → Type 0 = λ s'. IsBalanced s s' × (s'.ssl ≡ false) in
      let with_context : BalancedFor (context s).1 =
        bind-keeps BalancedFor socket (λ _. open_context network) s (looked.0, looked.2)
          λ _ _.
            let opened = open_context-IsBalanced network s (socket s).1 looked.0 looked.1 in
            (opened.0, opened.1 ∙ looked.2) in
      let with_config : BalancedFor (configured s).1 =
        bind-keeps BalancedFor context (λ _. lift (configure_context network ca_bundle)) s
          with_context λ _ _. with_context in
      let with_session : IsBalanced s (session s).1 =
        bind-keeps (IsBalanced s) configured (λ _. open_session network) s with_config.0
          λ _ _. open_session-IsBalanced network s (configured s).1 with_config.0 with_config.1 in
      let ready = session >> lift (configure_session network host) in
      let with_ready : IsBalanced s (ready s).1 =
        bind-keeps (IsBalanced s) session (λ _. lift (configure_session network host)) s
          with_session λ _ _. with_session in
      bind-keeps (IsBalanced s) ready (λ _. lift (verify_peer network)) s with_ready
        λ _ _. with_ready

-- Nothing is held but what was held at `base`.
abbrev pub IsReleased : TlsConnection → TlsConnection → Type 0
IsReleased base s =
    (s.open_sockets ≡ base.open_sockets)
    × (s.open_contexts ≡ base.open_contexts)
    × (s.open_sessions ≡ base.open_sessions)
    × (s.open_lists ≡ base.open_lists)

cleanup-IsReleased : (base s : TlsConnection) → IsBalanced base s → IsReleased base (cleanup s)
unfolding cleanup free_session close_socket free_context
cleanup-IsReleased base s h = ground arith

clean_if_thrown-IsReleased :
    (base : TlsConnection) (r : Result (Unit {0})) (s : TlsConnection) (e : Error)
    → IsBalanced base s
    → (clean_if_thrown (r, s)).0 ≡ err e
    → IsReleased base (clean_if_thrown (r, s)).1
clean_if_thrown-IsReleased base (ok _) s e h k = cc
clean_if_thrown-IsReleased base (err e') s e h k = cleanup-IsReleased base s h

clean_if_thrown-IsBalanced :
    (base : TlsConnection) (r : Result (Unit {0})) (s : TlsConnection)
    → IsBalanced base s
    → IsBalanced base (clean_if_thrown (r, s)).1
clean_if_thrown-IsBalanced base (ok _) s h = h
clean_if_thrown-IsBalanced base (err e) s h = (cleanup-IsBalanced base s h).0

module _ (network : Network) (host port ca_bundle : Bytes) (s : TlsConnection) (f : s.fd ≡ false)
    (c : s.ctx ≡ false) (t : s.ssl ≡ false) where
  -- A constructor that starts with no member set and throws has closed and freed every socket,
  -- context, session and address list that it opened.
  pub connect-IsReleased :
      (e : Error)
      → (connect network host port ca_bundle s).0 ≡ err e
      → IsReleased s (connect network host port ca_bundle s).1
  unfolding connect
  connect-IsReleased e =
      let (r, s') = set_up network host port ca_bundle s in
      clean_if_thrown-IsReleased s r s' e (set_up-IsBalanced network host port ca_bundle s f c t)

  -- The destructor closes and frees what a constructor that returned holds.
  pub disconnect-IsReleased : IsReleased s (cleanup (connect network host port ca_bundle s).1)
  unfolding connect
  disconnect-IsReleased =
      let (r, s') = set_up network host port ca_bundle s in
      cleanup-IsReleased s (clean_if_thrown (r, s')).1
        (clean_if_thrown-IsBalanced s r s' (set_up-IsBalanced network host port ca_bundle s f c t))

cleanup-wire : (s : TlsConnection) → (cleanup s).wire ≡ s.wire
unfolding cleanup free_session close_socket free_context
cleanup-wire s = ground arith

connect_to-wire :
    (host port : Bytes) (look : Lookup) (s : TlsConnection)
    → (connect_to host port look s).1.wire ≡ s.wire
connect_to-wire host port (lookup_failed text) s = refl
connect_to-wire host port (addresses list) s =
    ground (
      arith,
      ap (λ x. x.wire) (connect_loop-held list (record s { open_lists = s.open_lists + 1 })),
    )

open_context-wire :
    (network : Network) (s : TlsConnection) → (open_context network s).1.wire ≡ s.wire
unfolding open_context
open_context-wire network s = ground arith

open_session-wire :
    (network : Network) (s : TlsConnection) → (open_session network s).1.wire ≡ s.wire
unfolding open_session
open_session-wire network s = ground arith

clean_if_thrown-wire :
    (r : Result (Unit {0})) (s : TlsConnection) → (clean_if_thrown (r, s)).1.wire ≡ s.wire
clean_if_thrown-wire (ok _) s = refl
clean_if_thrown-wire (err e) s = cleanup-wire s

-- The constructor sends nothing of the program's.
pub connect-wire :
    (network : Network) (host port ca_bundle : Bytes) (s : TlsConnection)
    → (connect network host port ca_bundle s).1.wire ≡ s.wire
unfolding connect set_up open_socket
connect-wire network host port ca_bundle s =
    let Same : TlsConnection → Type 0 = λ s'. s'.wire ≡ s.wire in
    let m0 = open_socket network host port in
    let m1 = m0 >> open_context network in
    let m2 = m1 >> lift (configure_context network ca_bundle) in
    let m3 = m2 >> open_session network in
    let m4 = m3 >> lift (configure_session network host) in
    let w0 = connect_to-wire host port (network.resolve (c_text host) (c_text port)) s in
    let w1 =
      bind-keeps Same m0 (λ _. open_context network) s w0
        λ _ _. open_context-wire network (m0 s).1 ∙ w0 in
    let w2 = bind-keeps Same m1 (λ _. lift (configure_context network ca_bundle)) s w1 λ _ _. w1 in
    let w3 =
      bind-keeps Same m2 (λ _. open_session network) s w2
        λ _ _. open_session-wire network (m2 s).1 ∙ w2 in
    let w4 = bind-keeps Same m3 (λ _. lift (configure_session network host)) s w3 λ _ _. w3 in
    let w5 = bind-keeps Same m4 (λ _. lift (verify_peer network)) s w4 λ _ _. w4 in
    clean_if_thrown-wire (set_up network host port ca_bundle s).0
      (set_up network host port ca_bundle s).1
    ∙ w5
