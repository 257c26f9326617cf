-- ===== src/Http/Session/Exchange.antt =====
-- HandleOneExchange and Run.
pub mod Closing
pub mod Balance
pub mod KeepAlive
pub mod Headers
use proxypp.Prelude.{
  ℕ, zero, suc, ◌+◌, ◌-◌, ◌*◌, ◌/◌, ◌%◌, ◌^◌, ◌≤◌, ◌<◌, min, String, ◌≡◌, refl, sym, ap, subst, ◌∙◌,
  ◌≡⟨◌⟩◌, ◌∎, ◌≢◌, ◌↔◌, ◌⊎◌, inl, inr, Bool, true, false, not, ◌&&◌, ◌||◌, Option, none, some, List,
  [], ◌∷◌, ◌++◌, map, append-nil, append_assoc, arith, eq_iff, ltb, leb, ◌==◌, str_eq,
  if◌then◌else◌, ltb→lt, lt→ltb, ==_iff, Bool-cases, Option-cases, length, take, drop, All,
  length-append, take-append-drop, length-take, length-drop, take-length, drop-length, filter,
  contains,
}
use proxypp.Error.{Result}
use proxypp.Http.Environment.{Environment}
use proxypp.Http.Adapter.{
  RequestHeader, ResponseHeader, request_adapter, response_adapter, request_reader, response_reader,
}
use proxypp.Http.BodyInfo.{RequestParser, ResponseParser, is_connect}
use proxypp.Http.RemoteInfo.{parse_remote_info}
use proxypp.Http.RemoteHeader.{build_remote_request_header}
use proxypp.Http.Stream.{Peer, client, remote}
use proxypp.Rule.Model.{Rule, HttpConfig}
use proxypp.Rule.Apply.{apply_request, apply_response}
use proxypp.Rule.Injector.{inject_request_context, inject_response_context}
use proxypp.Rule.Scripting.{script_matcher}
use proxypp.Http.Session.{
  Session, Outcome, done, stopped, thrown, starved, X, pure, bind, ◌>>=◌, ◌>>◌, or_stop, or_throw,
  close,
}
use proxypp.Http.Session.Remote.{ensure_remote_connected}
use proxypp.Http.Session.Body.{
  forward_request_body, forward_response_body, read_client_request_header,
  read_remote_response_header, write_remote_request_header, write_remote_response_header_to_client,
}
use proxypp.Http.Session.Tunnel.{handle_connect_exchange}

module _ (V : Environment) (rule_http_config : Option HttpConfig) where
  -- ApplyRequest if rules are configured; its error is only logged.
  unfoldable pub rewrite_request :
      Option HttpConfig → RequestHeader V.fields → X V (RequestHeader V.fields)
  rewrite_request none header s = done header s
  rewrite_request (some config) header s =
      let r =
        apply_request (script_matcher V.quickjs V.engine) (request_adapter V.fields) V.to_lower
          (inject_request_context V.quickjs V.to_lower (request_adapter V.fields)
            (request_reader V.fields))
          config.rules (s.runtime, header) in
      done r.1.1 (record s { runtime = r.1.0 })

  -- ApplyResponse if rules are configured; its error is only logged.
  unfoldable pub rewrite_response :
      Option HttpConfig
      → RequestHeader V.fields
      → ResponseHeader V.fields
      → X V (ResponseHeader V.fields)
  rewrite_response none request header s = done header s
  rewrite_response (some config) request header s =
      let r =
        apply_response (script_matcher V.quickjs V.engine) (response_adapter V.fields) V.to_lower
          (inject_response_context V.quickjs V.to_lower (response_adapter V.fields)
            (response_reader V.fields) (request_adapter V.fields) (request_reader V.fields) request)
          config.rules (s.runtime, header) in
      done r.1.1 (record s { runtime = r.1.0 })

  -- ShouldKeepAlive
  unfoldable pub should_keep_alive :
      RequestParser V.fields → ResponseParser V.fields → Session V → Bool
  should_keep_alive request response s =
      request.keep_alive
      && (response.keep_alive && (V.is_open client s.world && V.is_open remote s.world))

  -- The part of HandleOneExchange before the request is written: the header that is sent to the
  -- remote.
  unfoldable pub prepare_request : RequestParser V.fields → X V (RequestHeader V.fields)
  prepare_request request = do
    remote_info ← or_stop (parse_remote_info V.urls request.header)
    ensure_remote_connected V remote_info
    header ←
        or_throw (build_remote_request_header V.fields V.enumerations request.header remote_info)
    rewrite_request rule_http_config header

  unfoldable pub keep_alive_result : RequestParser V.fields → ResponseParser V.fields → X V Bool
  keep_alive_result request response s = done (should_keep_alive request response s) s

  -- The part of HandleOneExchange for a request that is no CONNECT.
  unfoldable pub forward_exchange : ℕ → RequestParser V.fields → X V Bool
  forward_exchange fuel request = do
    header ← prepare_request request
    write_remote_request_header V header
    forward_request_body V fuel request
    response ← read_remote_response_header V
    response_header ← rewrite_response rule_http_config header response.header
    write_remote_response_header_to_client V response_header
    forward_response_body V fuel request response
    keep_alive_result request response

  -- HandleOneExchange: `done true` is ExchangeResult::Continue; `done false` and `stopped` are
  -- ExchangeResult::Close.
  unfoldable pub handle_one_exchange : ℕ → List Peer → X V Bool
  handle_one_exchange fuel schedule = do
    request ← read_client_request_header V
    if is_connect request.header
        then handle_connect_exchange V schedule request.header
        else forward_exchange fuel request

  -- Run, with fuel for the exchanges.
  unfoldable pub run : ℕ → ℕ → List Peer → X V (Unit {0})
  run zero fuel schedule s = starved
  run (suc exchanges) fuel schedule s = elim (handle_one_exchange fuel schedule s) [
    | done true s' ↦ run exchanges fuel schedule s'
    | done false s' ↦ done tt (close V s')
    | stopped s' ↦ done tt (close V s')
    | thrown s' ↦ thrown s'
    | starved ↦ starved
  ]
