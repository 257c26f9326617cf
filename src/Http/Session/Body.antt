-- ===== src/Http/Session/Body.antt =====
-- The bodies of an exchange: ForwardRequestBody, ForwardResponseBody and the functions that they
-- choose from, and the headers that are read and written.
pub mod Closing
use proxypp.Prelude.{
  ℕ, zero, suc, ◌+◌, ◌-◌, ◌*◌, ◌/◌, ◌%◌, ◌^◌, ◌≤◌, ◌<◌, min, String, ◌≡◌, refl, sym, ap, subst, ◌∙◌,
  ◌≡⟨◌⟩◌, ◌∎, ◌≢◌, ◌↔◌, ◌⊎◌, inl, inr, Bool, true, false, not, ◌&&◌, ◌||◌, Option, List, [], ◌∷◌,
  ◌++◌, map, append-nil, append_assoc, arith, eq_iff, ltb, leb, ◌==◌, str_eq, if◌then◌else◌, ltb→lt,
  lt→ltb, ==_iff, Bool-cases, Option-cases, length, take, drop, All, length-append,
  take-append-drop, length-take, length-drop, take-length, drop-length, filter, contains,
}
use mathlib.Core.Option
use proxypp.Http.Environment.{Environment}
use proxypp.Http.Adapter.{RequestHeader, ResponseHeader}
use proxypp.Http.BodyInfo.{
  RequestParser, ResponseParser, RequestBodyFraming, ResponseBodyFraming, RequestBodyInfo,
  ResponseBodyInfo, determine_request_body, determine_response_body,
}
use proxypp.Http.RemoteHeader.{remote_request, client_response}
use proxypp.Http.Stream.{Peer, client, remote, Io, Step, failed, made}
use proxypp.Http.Forward.{forward_exactly, forward_chunked, forward_until_eof}
use proxypp.Http.Session.{
  Session, Outcome, done, stopped, thrown, starved, X, pure, bind, ◌>>=◌, ◌>>◌, check, or_stop,
  or_throw,
}

module _ (V : Environment) where
  -- The buffer of the bytes that came from a peer.
  unfoldable pub io_of : Peer → Session V → Io V.sockets
  io_of client s = record { buffer = s.client_read_buffer; world = s.world }
  io_of remote s = record { buffer = s.remote_read_buffer; world = s.world }

  unfoldable pub put_io : Peer → Io V.sockets → Session V → Session V
  put_io client io s = record s { client_read_buffer = io.buffer; world = io.world }
  put_io remote io s = record s { remote_read_buffer = io.buffer; world = io.world }

  unfoldable pub after_loop : Peer → Option (Step V.sockets (Unit {0})) → X V (Unit {0})
  after_loop from_peer Option.none s = starved
  after_loop from_peer (Option.some (failed io)) s = stopped (put_io from_peer io s)
  after_loop from_peer (Option.some (made _ io)) s = done tt (put_io from_peer io s)

  -- A forwarding loop on the buffer of its source.
  unfoldable pub run_loop :
      Peer → (Io V.sockets → Option (Step V.sockets (Unit {0}))) → X V (Unit {0})
  run_loop from_peer loop s = after_loop from_peer (loop (io_of from_peer s)) s

  unfoldable pub forward_request_framed : ℕ → RequestBodyFraming → ℕ → X V (Unit {0})
  forward_request_framed fuel RequestBodyFraming.content_length content_length =
      run_loop client (forward_exactly V.sockets client remote fuel content_length 0)
  forward_request_framed fuel RequestBodyFraming.chunked content_length =
      run_loop client (forward_chunked V.sockets client remote fuel)
  forward_request_framed fuel RequestBodyFraming.none content_length = pure tt

  -- ForwardRequestBody, with ForwardRequestBodyByContentLength and ForwardRequestBodyByChunked.
  unfoldable pub forward_request_body : ℕ → RequestParser V.fields → X V (Unit {0})
  forward_request_body fuel request =
      let info = determine_request_body request in
      forward_request_framed fuel info.framing info.content_length

  unfoldable pub forward_response_framed : ℕ → ResponseBodyFraming → ℕ → X V (Unit {0})
  forward_response_framed fuel ResponseBodyFraming.content_length content_length =
      run_loop remote (forward_exactly V.sockets remote client fuel content_length 0)
  forward_response_framed fuel ResponseBodyFraming.chunked content_length =
      run_loop remote (forward_chunked V.sockets remote client fuel)
  forward_response_framed fuel ResponseBodyFraming.close_delimited content_length =
      run_loop remote (forward_until_eof V.sockets remote client fuel)
  forward_response_framed fuel ResponseBodyFraming.tunnel content_length = λ s. stopped s
  forward_response_framed fuel ResponseBodyFraming.none content_length = pure tt

  -- ForwardResponseBody, with the three functions that it chooses from.
  unfoldable pub forward_response_body :
      ℕ → RequestParser V.fields → ResponseParser V.fields → X V (Unit {0})
  forward_response_body fuel request response =
      let info = determine_response_body request response in
      forward_response_framed fuel info.framing info.content_length

  unfoldable pub read_client_request_header : X V (RequestParser V.fields)
  read_client_request_header s =
      let r = V.read_request_header s.client_read_buffer s.world in
      or_stop r.parser (record s { client_read_buffer = r.buffer; world = r.world })

  unfoldable pub read_remote_response_header : X V (ResponseParser V.fields)
  read_remote_response_header s =
      let r = V.read_response_header s.remote_read_buffer s.world in
      or_stop r.parser (record s { remote_read_buffer = r.buffer; world = r.world })

  unfoldable pub send_request_header : RequestHeader V.fields → X V (Unit {0})
  send_request_header request s =
      let r = V.write_request_header request s.world in check r.ec tt (record s { world = r.world })

  unfoldable pub write_remote_request_header : RequestHeader V.fields → X V (Unit {0})
  write_remote_request_header header =
      or_throw (remote_request V.fields V.enumerations header) >>= send_request_header

  unfoldable pub write_remote_response_header_to_client : ResponseHeader V.fields → X V (Unit {0})
  write_remote_response_header_to_client header s =
      let r = V.write_response_header (client_response V.fields V.enumerations header) s.world in
      check r.ec tt (record s { world = r.world })
