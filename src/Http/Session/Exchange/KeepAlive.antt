-- ===== src/Http/Session/Exchange/KeepAlive.antt =====
-- When the session serves another exchange.
use proxypp.Prelude.{
  ℕ, ◌≡◌, subst, ◌≢◌, inl, inr, Bool, true, false, Option, List, arith, Bool-cases,
}
use proxypp.Http.Environment.{Environment}
use proxypp.Http.Stream.{Peer, client, remote}
use proxypp.Http.BodyInfo.{RequestParser, ResponseParser, is_connect}
use proxypp.Rule.Model.{HttpConfig}
use proxypp.Http.Session.{Session, Outcome, done, stopped, thrown, starved, ◌>>=◌, ◌>>◌}
use proxypp.Http.Session.Leaves.{IsOpen, Leaves, Settled, bind-done}
use proxypp.Http.Adapter.{RequestHeader}
use proxypp.Http.Session.Body.{
  read_client_request_header, forward_request_body, forward_response_body,
  read_remote_response_header, write_remote_request_header, write_remote_response_header_to_client,
}
use proxypp.Http.Session.Body.Closing.{read_client-StaysOpen}
use proxypp.Http.Session.Tunnel.{handle_connect_exchange}
use proxypp.Http.Session.Tunnel.Closing.{Ends, handle_connect-Leaves}
use proxypp.Http.Session.Exchange.{
  rewrite_response, prepare_request, keep_alive_result, should_keep_alive, forward_exchange,
  handle_one_exchange,
}

module _ (V : Environment) (config : Option HttpConfig) (fuel : ℕ) where
  -- The response that the session reads in an exchange, behind the steps before: the header is
  -- prepared and written to the remote, and the body of the request is forwarded.
  pub record Answered (request : RequestParser V.fields) (behind : Session V) : Type 0 where
    pub header : RequestHeader V.fields
    pub prepared : Session V
    pub sent : Session V
    pub forwarded : Session V
    pub answered : Session V
    pub prepares : prepare_request V config request behind ≡ done header prepared
    pub sends : write_remote_request_header V header prepared ≡ done tt sent
    pub forwards : forward_request_body V fuel request sent ≡ done tt forwarded
    pub response : ResponseParser V.fields
    pub reads : read_remote_response_header V forwarded ≡ done response answered

  -- What the session has seen of an exchange after which it goes on.
  pub record KeptAlive (s s' : Session V) : Type 0 where
    pub request : RequestParser V.fields
    pub behind : Session V
    pub read : read_client_request_header V s ≡ done request behind
    pub no_connect : is_connect request.header ≡ false
    pub request_keeps : request.keep_alive ≡ true
    pub answer : Answered request behind
    pub response_keeps : answer.response.keep_alive ≡ true
    pub client_open : V.is_open client s'.world ≡ true
    pub remote_open : V.is_open remote s'.world ≡ true

  result-parts :
      (request : RequestParser V.fields) (response : ResponseParser V.fields) (s s' : Session V)
      → keep_alive_result V config request response s ≡ done true s'
      → (request.keep_alive ≡ true)
        × (response.keep_alive ≡ true)
        × (V.is_open client s'.world ≡ true)
        × (V.is_open remote s'.world ≡ true)
  unfolding keep_alive_result should_keep_alive
  result-parts request response s s' e = ground arith

  -- What an exchange that goes on says of its request and of its response.
  abbrev Continues : RequestParser V.fields → Session V → Session V → Type 0
  Continues request behind s =
      (answer : Answered request behind) × (request.keep_alive ≡ true)
      × (answer.response.keep_alive ≡ true)
      × (V.is_open client s.world ≡ true)
      × (V.is_open remote s.world ≡ true)

  -- The part behind the header of the response.
  response-Keeps :
      (request : RequestParser V.fields) (response : ResponseParser V.fields)
      (header : RequestHeader V.fields) (s s' : Session V)
      → (do
        response_header ← rewrite_response V config config header response.header
        write_remote_response_header_to_client V response_header
        forward_response_body V fuel request response
        keep_alive_result V config request response)
          s
        ≡ done true s'
      → (request.keep_alive ≡ true)
        × (response.keep_alive ≡ true)
        × (V.is_open client s'.world ≡ true)
        × (V.is_open remote s'.world ≡ true)
  response-Keeps request response header s s' e =
      let (rewritten, s5, _, e5) =
        bind-done (rewrite_response V config config header response.header s) _ true s' e in
      let (_, s6, _, e6) =
        bind-done (write_remote_response_header_to_client V rewritten s5) _ true s' e5 in
      let (_, s7, _, e7) =
        bind-done (forward_response_body V fuel request response s6) _ true s' e6 in
      result-parts request response s7 s' e7

  forward_exchange-Continues :
      (request : RequestParser V.fields) (s s' : Session V)
      → forward_exchange V config fuel request s ≡ done true s'
      → Continues request s s'
  unfolding forward_exchange
  forward_exchange-Continues request s s' e =
      let (header, s1, prepares, e1) = bind-done (prepare_request V config request s) _ true s' e in
      let (_, s2, sends, e2) = bind-done (write_remote_request_header V header s1) _ true s' e1 in
      let (_, s3, forwards, e3) = bind-done (forward_request_body V fuel request s2) _ true s' e2 in
      let (response, s4, reads, e4) = bind-done (read_remote_response_header V s3) _ true s' e3 in
      let (a, b, c, d) = response-Keeps request response header s4 s' e4 in
      (
        record {
          header = header;
          prepared = s1;
          sent = s2;
          forwarded = s3;
          answered = s4;
          prepares = prepares;
          sends = sends;
          forwards = forwards;
          response = response;
          reads = reads;
        },
        a,
        b,
        c,
        d,
      )

  connect-Ends :
      (o : Outcome V Bool) (s' : Session V) → Leaves (Ends V) Settled o → o ≢ done true s'
  connect-Ends (done b s) s' (e, h) k = cc
  connect-Ends (stopped s) s' h k = cc
  connect-Ends (thrown s) s' h k = cc
  connect-Ends starved s' h k = cc

  -- If an exchange of an open session is to be followed by another one, its request was no CONNECT,
  -- that request and the response that the session read, after it had written the prepared header
  -- and forwarded the body of the request, both ask to keep the connection, and both sockets are
  -- still open.
  pub handle_one_exchange-KeptAlive :
      (schedule : List Peer) (s s' : Session V)
      → IsOpen s
      → handle_one_exchange V config fuel schedule s ≡ done true s'
      → KeptAlive s s'
  unfolding handle_one_exchange
  handle_one_exchange-KeptAlive schedule s s' h e =
      let (request, s1, read, e1) = bind-done (read_client_request_header V s) _ true s' e in
      let opened : IsOpen s1 =
        subst (Leaves (λ _. IsOpen) Settled) read (read_client-StaysOpen V s h) in
      elim (Bool-cases (is_connect request.header)) [
        | inl with_connect ↦ absurd (
            connect-Ends (handle_connect_exchange V schedule request.header s1) s'
              (handle_connect-Leaves V schedule request.header s1 opened) (ground arith))
        | inr forwarded ↦
            let (answer, a, b, c, d) = forward_exchange-Continues request s1 s' (ground arith) in
            record {
              request = request;
              behind = s1;
              read = read;
              no_connect = forwarded;
              request_keeps = a;
              answer = answer;
              response_keeps = b;
              client_open = c;
              remote_open = d;
            }
      ]
