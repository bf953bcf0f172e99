-- ===== src/TlsConnection/Verified.antt =====
-- What has been checked when the constructor returns.
use eternal_blue.Prelude.{Bytes, true, none, ◌≡◌, refl, is_empty, c_text, if◌then◌else◌, arith}
use eternal_blue.Prelude.Exec.{Result, ok, err, lift, ◌>>◌, bind-eq-ok}
use eternal_blue.TlsConnection.Defs.{
  Network, TlsConnection, all_of, open_socket, open_context, configure_context, open_session,
  configure_session, verify_peer, set_up, connect, clean_if_thrown,
}

clean_if_thrown-eq-ok :
    (r : Result (Unit {0})) (s : TlsConnection) → (clean_if_thrown (r, s)).0 ≡ ok tt → r ≡ ok tt
clean_if_thrown-eq-ok (ok u) s h = refl
clean_if_thrown-eq-ok (err e) s h = cc

-- The peer's certificate was verified, for the host and under the settings that were asked for.
pub record IsVerified (network : Network) (host ca_bundle : Bytes) : Type 0 where
  pub handshake : network.handshake ≡ true
  pub certificate : network.verify_failure ≡ none
  pub host_checked : network.sets_verified_host host ≡ true
  pub server_named : network.sets_server_name (c_text host) ≡ true
  pub min_version : network.sets_min_version ≡ true
  pub system_authorities : network.loads_system_authorities ≡ true
  pub authorities :
      (if is_empty ca_bundle then true else network.loads_authorities (c_text ca_bundle)) ≡ true

module _ (network : Network) (host port ca_bundle : Bytes) where
  verify_peer-eq-ok :
      verify_peer network ≡ ok tt → (network.handshake ≡ true) × (network.verify_failure ≡ none)
  unfolding verify_peer
  verify_peer-eq-ok h = ground arith

  configure_context-eq-ok :
      configure_context network ca_bundle ≡ ok tt
      → (network.sets_min_version ≡ true)
        × (network.loads_system_authorities ≡ true)
        × ((if is_empty ca_bundle then true else network.loads_authorities (c_text ca_bundle))
            ≡ true)
  unfolding configure_context all_of
  configure_context-eq-ok h = ground arith

  configure_session-eq-ok :
      configure_session network host ≡ ok tt
      → (network.sets_server_name (c_text host) ≡ true) × (network.sets_verified_host host ≡ true)
  unfolding configure_session all_of
  configure_session-eq-ok h = ground arith

  -- The parts of the try block, when it ends well.
  set_up-eq-ok :
      (s : TlsConnection)
      → (set_up network host port ca_bundle s).0 ≡ ok tt
      → (configure_context network ca_bundle ≡ ok tt)
        × (configure_session network host ≡ ok tt)
        × (verify_peer network ≡ ok tt)
  unfolding set_up
  set_up-eq-ok s h =
      let m1 = open_socket network host port >> open_context network in
      let m2 = m1 >> lift (configure_context network ca_bundle) in
      let m3 = m2 >> open_session network in
      let m4 = m3 >> lift (configure_session network host) in
      let (a4, e4, verified) = bind-eq-ok m4 (λ _. lift (verify_peer network)) s tt h in
      let (a3, e3, session) = bind-eq-ok m3 (λ _. lift (configure_session network host)) s a4 e4 in
      let (a2, e2, opened) = bind-eq-ok m2 (λ _. open_session network) s a3 e3 in
      let (a1, e1, context) =
        bind-eq-ok m1 (λ _. lift (configure_context network ca_bundle)) s a2 e2 in
      (context, session, verified)

  -- If the constructor returns, the handshake and the verification of the certificate succeeded, the
  -- name to verify was set to the host, TLS 1.2 was set as the least version, and the authorities
  -- were loaded, those of the bundle too if one is given.
  pub connect-IsVerified :
      (s : TlsConnection)
      → (connect network host port ca_bundle s).0 ≡ ok tt
      → IsVerified network host ca_bundle
  unfolding connect
  connect-IsVerified s h =
      let (r, s') = set_up network host port ca_bundle s in
      let (context, session, verified) = set_up-eq-ok s (clean_if_thrown-eq-ok r s' h) in
      let (handshake, certificate) = verify_peer-eq-ok verified in
      let settings = configure_context-eq-ok context in
      let names = configure_session-eq-ok session in
      record {
        handshake = handshake;
        certificate = certificate;
        host_checked = names.1;
        server_named = names.0;
        min_version = settings.0;
        system_authorities = settings.1;
        authorities = settings.2;
      }
