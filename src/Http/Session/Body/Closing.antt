-- ===== src/Http/Session/Body/Closing.antt =====
-- The forwarding of headers and bodies does not close the session.
use proxypp.Prelude.{ℕ, ◌≡◌, refl, ◌∙◌, inl, Option}
use proxypp.Http.Environment.{Environment}
use proxypp.Http.Stream.{Peer, client, remote, Io, Step, failed, made}
use proxypp.Http.Session.{Session}
use proxypp.Http.Session.Leaves.{
  Settled, StaysOpen, bind-Leaves, or_stop-StaysOpen, or_throw-StaysOpen, check-StaysOpen,
}
use proxypp.Http.Adapter.{RequestHeader, ResponseHeader}
use proxypp.Http.BodyInfo.{
  RequestParser, ResponseParser, RequestBodyFraming, ResponseBodyFraming, determine_request_body,
  determine_response_body,
}
use proxypp.Http.RemoteHeader.{remote_request}
use proxypp.Http.Session.Body.{
  io_of, put_io, after_loop, run_loop, forward_request_framed, forward_response_framed,
  forward_request_body, forward_response_body, read_client_request_header,
  read_remote_response_header, send_request_header, write_remote_request_header,
  write_remote_response_header_to_client,
}

module _ (V : Environment) where
  pub put_io-closed :
      (p : Peer) (io : Io V.sockets) (s : Session V) → (put_io V p io s).closed ≡ s.closed
  unfolding put_io
  put_io-closed client io s = refl
  put_io-closed remote io s = refl

  pub put_io-Settled :
      (p : Peer) (io : Io V.sockets) (s : Session V) → Settled s → Settled (put_io V p io s)
  unfolding put_io
  put_io-Settled client io s h = h
  put_io-Settled remote io s h = h

  after_loop-StaysOpen :
      (p : Peer) (o : Option (Step V.sockets (Unit {0}))) → StaysOpen (after_loop V p o)
  unfolding after_loop
  after_loop-StaysOpen p Option.none s h = tt
  after_loop-StaysOpen p (Option.some (failed io)) s h = inl (put_io-closed p io s ∙ h)
  after_loop-StaysOpen p (Option.some (made _ io)) s h = put_io-closed p io s ∙ h

  run_loop-StaysOpen :
      (p : Peer) (loop : Io V.sockets → Option (Step V.sockets (Unit {0})))
      → StaysOpen (run_loop V p loop)
  unfolding run_loop
  run_loop-StaysOpen p loop s h = after_loop-StaysOpen p (loop (io_of V p s)) s h

  request_framed-StaysOpen :
      (fuel : ℕ) (f : RequestBodyFraming) (n : ℕ) → StaysOpen (forward_request_framed V fuel f n)
  unfolding forward_request_framed
  request_framed-StaysOpen fuel RequestBodyFraming.content_length n s h =
      run_loop-StaysOpen client _ s h
  request_framed-StaysOpen fuel RequestBodyFraming.chunked n s h = run_loop-StaysOpen client _ s h
  request_framed-StaysOpen fuel RequestBodyFraming.none n s h = h

  response_framed-StaysOpen :
      (fuel : ℕ) (f : ResponseBodyFraming) (n : ℕ) → StaysOpen (forward_response_framed V fuel f n)
  unfolding forward_response_framed
  response_framed-StaysOpen fuel ResponseBodyFraming.content_length n s h =
      run_loop-StaysOpen remote _ s h
  response_framed-StaysOpen fuel ResponseBodyFraming.chunked n s h = run_loop-StaysOpen remote _ s h
  response_framed-StaysOpen fuel ResponseBodyFraming.close_delimited n s h =
      run_loop-StaysOpen remote _ s h
  response_framed-StaysOpen fuel ResponseBodyFraming.tunnel n s h = inl h
  response_framed-StaysOpen fuel ResponseBodyFraming.none n s h = h

  pub request_body-StaysOpen :
      (fuel : ℕ) (r : RequestParser V.fields) → StaysOpen (forward_request_body V fuel r)
  unfolding forward_request_body
  request_body-StaysOpen fuel r s h =
      let info = determine_request_body r in
      request_framed-StaysOpen fuel info.framing info.content_length s h

  pub response_body-StaysOpen :
      (fuel : ℕ) (q : RequestParser V.fields) (r : ResponseParser V.fields)
      → StaysOpen (forward_response_body V fuel q r)
  unfolding forward_response_body
  response_body-StaysOpen fuel q r s h =
      let info = determine_response_body q r in
      response_framed-StaysOpen fuel info.framing info.content_length s h

  pub read_client-StaysOpen : StaysOpen (read_client_request_header V)
  unfolding read_client_request_header
  read_client-StaysOpen s h =
      let r = V.read_request_header s.client_read_buffer s.world in or_stop-StaysOpen r.parser _ h

  pub read_remote-StaysOpen : StaysOpen (read_remote_response_header V)
  unfolding read_remote_response_header
  read_remote-StaysOpen s h =
      let r = V.read_response_header s.remote_read_buffer s.world in or_stop-StaysOpen r.parser _ h

  pub write_remote-StaysOpen :
      (header : RequestHeader V.fields) → StaysOpen (write_remote_request_header V header)
  unfolding write_remote_request_header send_request_header
  write_remote-StaysOpen header s h =
      bind-Leaves _ _ _ (or_throw-StaysOpen (remote_request V.fields V.enumerations header) s h)
        λ request t k. check-StaysOpen (V.write_request_header request t.world).ec tt _ k

  pub write_client-StaysOpen :
      (header : ResponseHeader V.fields)
      → StaysOpen (write_remote_response_header_to_client V header)
  unfolding write_remote_response_header_to_client
  write_client-StaysOpen header s h = check-StaysOpen _ tt _ h
