-- ===== src/HttpClient/Exchange.antt =====
-- What a request sends over its connection, and what it makes of the answer.
use eternal_blue.Prelude.{
  ◌<◌, ◌^◌, Bytes, [], ◌∷◌, ◌++◌, ◌≡◌, refl, ap, subst, sym, ◌∙◌, length, inl, inr, ◌⊎◌,
}
use eternal_blue.Prelude.Exec.{ok, ◌>>◌, bind_err, bind_ok}
use eternal_blue.Prelude.Exec.Pure.{Result-cases}
use eternal_blue.TlsConnection.{Network, connect, write, read_all}
use eternal_blue.TlsConnection.Setup.{connect-wire}
use eternal_blue.TlsConnection.Verified.{IsVerified, connect-IsVerified}
use eternal_blue.TlsConnection.Transfer.{
  write_sends, read_all_lem, IsAccepting, EndsWell, delivered,
}
use eternal_blue.HttpClient.Defs.{
  Internet, HttpClient, request_text, unconnected, exchange, request, parse_http_response,
}

module _ (network : Network) (client : HttpClient) (text : Bytes) where
  exchange-IsVerified :
      ((exchange network client text).1.wire ≡ []) ⊎ IsVerified network client.host client.ca_bundle
  unfolding exchange
  exchange-IsVerified =
      let opened = connect network client.host client.port client.ca_bundle in
      let sent = opened >> write network text in
      elim (Result-cases (opened unconnected).0) [
        | inl (u, e) ↦
            inr (connect-IsVerified network client.host client.port client.ca_bundle unconnected e)
        | inr (e, thrown) ↦
            let not_sent = bind_err opened (λ _. write network text) unconnected e thrown in
            let not_read =
              bind_err sent (λ _. read_all network) unconnected e (ap (λ p. p.0) not_sent) in
            inl (
              ap (λ p. p.1.wire) not_read
              ∙ ap (λ p. p.1.wire) not_sent
              ∙ connect-wire network client.host client.port client.ca_bundle unconnected)
      ]

  exchange-delivers :
      (connect network client.host client.port client.ca_bundle unconnected).0 ≡ ok tt
      → IsAccepting network.sends
      → length text < 2 ^ 31
      → EndsWell (network.events text)
      → ((exchange network client text).0 ≡ ok (delivered (network.events text)))
        × ((exchange network client text).1.wire ≡ text)
  unfolding exchange read_all
  exchange-delivers connected accepting small well =
      let opened = connect network client.host client.port client.ca_bundle in
      let sent = opened >> write network text in
      let s = (opened unconnected).1 in
      let writing = bind_ok opened (λ _. write network text) unconnected tt connected in
      let (wrote, written) = write_sends network text s accepting small in
      let wire : (write network text s).1.wire ≡ text =
        written
        ∙ ap (λ w. w ++ text)
            (connect-wire network client.host client.port client.ca_bundle unconnected) in
      let reading =
        bind_ok sent (λ _. read_all network) unconnected tt (ap (λ p. p.0) writing ∙ wrote) in
      let received =
        (read_all_lem network (write network text s).1 (delivered (network.events text))).1 (
          subst (λ w. EndsWell (network.events w)) (sym wire) well,
          ap (λ w. delivered (network.events w)) wire,
        ) in
      (
        ap (λ p. p.0) reading ∙ ap (λ p. (read_all network p.1).0) writing ∙ received,
        ap (λ p. p.1.wire) reading ∙ ap (λ p. p.1.wire) writing ∙ wire,
      )

module _ ⦃internet : Internet⦄ (client : HttpClient) (method path body : Bytes) where
  -- A request adds one text to the texts sent. That text is empty, unless the handshake succeeded and
  -- the certificate was verified for the host: the token and the body go to no other peer.
  pub request-IsVerified :
      (text : Bytes) × ((request method path body client).1.log ≡ client.log ++ text ∷ [])
      × ((text ≡ []) ⊎ IsVerified (internet.session client.log) client.host client.ca_bundle)
  unfolding request
  request-IsVerified =
      let network = internet.session client.log in
      let text = request_text client method path body in
      ((exchange network client text).1.wire, refl, exchange-IsVerified network client text)

  -- If the connection is made, no write is refused, the text of the request is shorter than 2^31 bytes
  -- and the peer's answer ends well, the request sends its whole text and returns what the parser
  -- makes of all that the peer sent.
  pub request_lem :
      (connect (internet.session client.log) client.host client.port client.ca_bundle unconnected).0
        ≡ ok tt
      → IsAccepting (internet.session client.log).sends
      → length (request_text client method path body) < 2 ^ 31
      → EndsWell ((internet.session client.log).events (request_text client method path body))
      → request method path body client ≡ (
        parse_http_response (
            delivered
              ((internet.session client.log).events (request_text client method path body))),
        record client { log = client.log ++ request_text client method path body ∷ [] },
      )
  unfolding request
  request_lem connected accepting small well =
      let network = internet.session client.log in
      let text = request_text client method path body in
      let (answer, sent) = exchange-delivers network client text connected accepting small well in
      rw (answer, sent) refl
