-- ===== src/Http/Session/Heap.antt =====
-- What the operations of a session do to the script runtime: the sockets do not touch it.
use proxypp.Prelude.{ℕ, inl, inr, Option, none, some, List, [], ◌∷◌, Bool-cases}
use proxypp.Http.Environment.{Environment}
use proxypp.Http.Stream.{Peer, client, remote, Io, Step, failed, made}
use proxypp.Http.Session.{
  Session, Outcome, done, stopped, thrown, starved, X, bind, check, or_stop, or_throw,
  reset_remote_state, close_remote, close_client, close,
}
use proxypp.Http.RemoteInfo.{RemoteInfo}
use proxypp.Http.Session.Remote.{
  nonempty_endpoints, resolve_remote, connect_remote, set_remote_state, can_reuse, reconnect,
  ensure_remote_connected,
}
use proxypp.Http.Adapter.{RequestHeader, ResponseHeader}
use proxypp.Http.BodyInfo.{RequestParser, ResponseParser, RequestBodyFraming, ResponseBodyFraming}
use proxypp.Http.RemoteHeader.{remote_request}
use proxypp.Http.Session.Body.{
  io_of, put_io, after_loop, run_loop, forward_request_framed, forward_response_framed,
  forward_request_body, forward_response_body, read_client_request_header,
  read_remote_response_header, send_request_header, write_remote_request_header,
  write_remote_response_header_to_client,
}

module _ {V : Environment} (P : V.quickjs.Heap → Type 0) where
  -- In each outcome in which there is a session, P holds of its runtime.
  abbrev pub Holds : {A : Type 0} → Outcome V A → Type 0
  Holds (done a s) = P s.runtime
  Holds (stopped s) = P s.runtime
  Holds (thrown s) = P s.runtime
  Holds starved = Unit {0}

  abbrev pub Keeps : {A : Type 0} → X V A → Type 0
  Keeps m = (s : Session V) → P s.runtime → Holds (m s)

  pub bind-Holds :
      {A B : Type 0} (m : Outcome V A) (f : A → X V B)
      → Holds m
      → ((a : A) → Keeps (f a))
      → Holds (bind m f)
  bind-Holds (done a s) f h k = k a s h
  bind-Holds (stopped s) f h k = h
  bind-Holds (thrown s) f h k = h
  bind-Holds starved f h k = tt

  pub or_stop-Keeps : {A : Type 0} (o : Option A) → Keeps (or_stop o)
  or_stop-Keeps none s h = h
  or_stop-Keeps (some a) s h = h

  pub or_throw-Keeps : {A : Type 0} (o : Option A) → Keeps (or_throw o)
  or_throw-Keeps none s h = h
  or_throw-Keeps (some a) s h = h

  pub check-Keeps : {A B : Type 0} (o : Option B) (a : A) → Keeps (check o a)
  check-Keeps none a s h = h
  check-Keeps (some code) a s h = h

  pub close-runtime : (s : Session V) → P s.runtime → P (close V s).runtime
  unfolding close close_client close_remote reset_remote_state
  close-runtime s h = elim (Bool-cases s.closed) [
    | inl closed ↦ rw closed h
    | inr running ↦ rw running h
  ]

  nonempty-Keeps : (endpoints : List V.Endpoint) → Keeps (nonempty_endpoints V endpoints)
  unfolding nonempty_endpoints
  nonempty-Keeps [] s h = h
  nonempty-Keeps (e ∷ es) s h = h

  resolve-Keeps : (info : RemoteInfo) → Keeps (resolve_remote V info)
  unfolding resolve_remote
  resolve-Keeps info s h =
      bind-Holds _ _ (check-Keeps (V.async_resolve info.host info.port s.world).ec _ _ h)
        nonempty-Keeps

  connect-Keeps : (endpoints : List V.Endpoint) → Keeps (connect_remote V endpoints)
  unfolding connect_remote
  connect-Keeps endpoints s h = check-Keeps (V.async_connect endpoints s.world).ec tt _ h

  reconnect-Keeps : (info : RemoteInfo) → Keeps (reconnect V info)
  unfolding reconnect set_remote_state
  reconnect-Keeps info s h =
      bind-Holds _ _ (resolve-Keeps info s h)
        λ endpoints s1 h1. bind-Holds _ _ (connect-Keeps endpoints s1 h1) λ _ s2 h2. h2

  pub ensure-Keeps : (info : RemoteInfo) → Keeps (ensure_remote_connected V info)
  unfolding ensure_remote_connected close_remote reset_remote_state
  ensure-Keeps info s h = elim (Bool-cases (can_reuse V info s)) [
    | inl reused ↦ rw reused h
    | inr other ↦ rw other (reconnect-Keeps info (close_remote V s) h)
  ]

  pub put_io-runtime :
      (p : Peer) (io : Io V.sockets) (s : Session V) → P s.runtime → P (put_io V p io s).runtime
  unfolding put_io
  put_io-runtime client io s h = h
  put_io-runtime remote io s h = h

  after_loop-Keeps : (p : Peer) (o : Option (Step V.sockets (Unit {0}))) → Keeps (after_loop V p o)
  unfolding after_loop
  after_loop-Keeps p Option.none s h = tt
  after_loop-Keeps p (Option.some (failed io)) s h = put_io-runtime p io s h
  after_loop-Keeps p (Option.some (made _ io)) s h = put_io-runtime p io s h

  run_loop-Keeps :
      (p : Peer) (loop : Io V.sockets → Option (Step V.sockets (Unit {0})))
      → Keeps (run_loop V p loop)
  unfolding run_loop
  run_loop-Keeps p loop s h = after_loop-Keeps p (loop (io_of V p s)) s h

  request_framed-Keeps :
      (fuel : ℕ) (framing : RequestBodyFraming) (n : ℕ)
      → Keeps (forward_request_framed V fuel framing n)
  unfolding forward_request_framed
  request_framed-Keeps fuel RequestBodyFraming.content_length n s h = run_loop-Keeps client _ s h
  request_framed-Keeps fuel RequestBodyFraming.chunked n s h = run_loop-Keeps client _ s h
  request_framed-Keeps fuel RequestBodyFraming.none n s h = h

  pub request_body-Keeps :
      (fuel : ℕ) (request : RequestParser V.fields) → Keeps (forward_request_body V fuel request)
  unfolding forward_request_body
  request_body-Keeps fuel request = request_framed-Keeps fuel _ _

  response_framed-Keeps :
      (fuel : ℕ) (framing : ResponseBodyFraming) (n : ℕ)
      → Keeps (forward_response_framed V fuel framing n)
  unfolding forward_response_framed
  response_framed-Keeps fuel ResponseBodyFraming.content_length n s h = run_loop-Keeps remote _ s h
  response_framed-Keeps fuel ResponseBodyFraming.chunked n s h = run_loop-Keeps remote _ s h
  response_framed-Keeps fuel ResponseBodyFraming.close_delimited n s h = run_loop-Keeps remote _ s h
  response_framed-Keeps fuel ResponseBodyFraming.tunnel n s h = h
  response_framed-Keeps fuel ResponseBodyFraming.none n s h = h

  pub response_body-Keeps :
      (fuel : ℕ) (request : RequestParser V.fields) (response : ResponseParser V.fields)
      → Keeps (forward_response_body V fuel request response)
  unfolding forward_response_body
  response_body-Keeps fuel request response = response_framed-Keeps fuel _ _

  pub read_client-Keeps : Keeps (read_client_request_header V)
  unfolding read_client_request_header
  read_client-Keeps s h =
      or_stop-Keeps (V.read_request_header s.client_read_buffer s.world).parser _ h

  pub read_remote-Keeps : Keeps (read_remote_response_header V)
  unfolding read_remote_response_header
  read_remote-Keeps s h =
      or_stop-Keeps (V.read_response_header s.remote_read_buffer s.world).parser _ h

  send-Keeps : (header : RequestHeader V.fields) → Keeps (send_request_header V header)
  unfolding send_request_header
  send-Keeps header s h = check-Keeps (V.write_request_header header s.world).ec tt _ h

  pub write_remote-Keeps :
      (header : RequestHeader V.fields) → Keeps (write_remote_request_header V header)
  unfolding write_remote_request_header
  write_remote-Keeps header s h =
      bind-Holds _ _ (or_throw-Keeps (remote_request V.fields V.enumerations header) s h) send-Keeps

  pub write_client-Keeps :
      (header : ResponseHeader V.fields) → Keeps (write_remote_response_header_to_client V header)
  unfolding write_remote_response_header_to_client
  write_client-Keeps header s h = check-Keeps _ tt _ h
