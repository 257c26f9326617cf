-- ===== src/Http/Session/Exchange/Balance.antt =====
-- A session gives back what the script runtime hands out, however it ends.
use proxypp.Prelude.{
  ℕ, zero, suc, inl, inr, Bool, true, false, Option, none, some, List, arith, Bool-cases,
}
use proxypp.Http.Environment.{Environment}
use proxypp.Http.Stream.{Peer}
use proxypp.Http.Session.{Session, Outcome, done, stopped, thrown, starved, close}
use proxypp.Http.Stream.{Peer}
use proxypp.Http.Adapter.{RequestHeader, ResponseHeader}
use proxypp.Http.BodyInfo.{RequestParser, is_connect}
use proxypp.Http.RemoteInfo.{parse_remote_info}
use proxypp.Http.RemoteHeader.{build_remote_request_header}
use proxypp.Rule.Model.{HttpConfig}
use proxypp.Script.Quickjs.{QuickjsLaws, Counters, Balanced}
use proxypp.Http.Adapter.{request_adapter, response_adapter, request_reader, response_reader}
use proxypp.Rule.Scripting.Owning.{apply_request-Balanced, apply_response-Balanced}
use proxypp.Http.Session.Heap.{
  Holds, Keeps, bind-Holds, or_stop-Keeps, or_throw-Keeps, close-runtime, ensure-Keeps,
  request_body-Keeps, response_body-Keeps, read_client-Keeps, read_remote-Keeps, write_remote-Keeps,
  write_client-Keeps,
}
use proxypp.Http.Session.Tunnel.Heap.{handle_connect-Keeps}
use proxypp.Http.Session.Exchange.{
  rewrite_request, rewrite_response, prepare_request, keep_alive_result, forward_exchange,
  handle_one_exchange, run,
}

Balanced-trans :
    {S : Type 0} (C : Counters S) (s t u : S) → Balanced C s t → Balanced C t u → Balanced C s u
Balanced-trans C s t u p q = omega arith

module _ (V : Environment) (L : QuickjsLaws V.quickjs) (config : Option HttpConfig)
    (first : V.quickjs.Heap) where
  -- As many references were given back as handed out since the first state.
  abbrev IsBalanced : V.quickjs.Heap → Type 0
  IsBalanced h = Balanced L.counters first h

  rewrite_request-Keeps :
      (rules : Option HttpConfig) (header : RequestHeader V.fields)
      → Keeps IsBalanced (rewrite_request V config rules header)
  unfolding rewrite_request
  rewrite_request-Keeps none header s h = h
  rewrite_request-Keeps (some c) header s h = Balanced-trans L.counters first s.runtime _ h (
      apply_request-Balanced L (request_adapter V.fields) (request_reader V.fields) V.to_lower
        V.engine c.rules (s.runtime, header))

  rewrite_response-Keeps :
      (rules : Option HttpConfig) (request : RequestHeader V.fields)
      (header : ResponseHeader V.fields)
      → Keeps IsBalanced (rewrite_response V config rules request header)
  unfolding rewrite_response
  rewrite_response-Keeps none request header s h = h
  rewrite_response-Keeps (some c) request header s h =
      Balanced-trans L.counters first s.runtime _ h (
        apply_response-Balanced L (request_adapter V.fields) (request_reader V.fields)
          (response_adapter V.fields) (response_reader V.fields) V.to_lower V.engine request c.rules
          (s.runtime, header))

  prepare_request-Keeps :
      (request : RequestParser V.fields) → Keeps IsBalanced (prepare_request V config request)
  unfolding prepare_request
  prepare_request-Keeps request s h =
      bind-Holds IsBalanced _ _
        (or_stop-Keeps IsBalanced (parse_remote_info V.urls request.header) s h)
        λ info s1 h1. bind-Holds IsBalanced _ _ (ensure-Keeps IsBalanced info s1 h1) λ _ s2 h2.
          bind-Holds IsBalanced _ _
            (or_throw-Keeps IsBalanced
              (build_remote_request_header V.fields V.enumerations request.header info) s2 h2)
            λ header. rewrite_request-Keeps config header

  forward_exchange-Keeps :
      (fuel : ℕ) (request : RequestParser V.fields)
      → Keeps IsBalanced (forward_exchange V config fuel request)
  unfolding forward_exchange keep_alive_result
  forward_exchange-Keeps fuel request s h =
      bind-Holds IsBalanced _ _ (prepare_request-Keeps request s h) λ header s1 h1.
        bind-Holds IsBalanced _ _ (write_remote-Keeps IsBalanced header s1 h1) λ _ s2 h2.
          bind-Holds IsBalanced _ _ (request_body-Keeps IsBalanced fuel request s2 h2) λ _ s3 h3.
            bind-Holds IsBalanced _ _ (read_remote-Keeps IsBalanced s3 h3) λ response s4 h4.
              bind-Holds IsBalanced _ _ (rewrite_response-Keeps config header response.header s4 h4)
                λ rewritten s5 h5.
                  bind-Holds IsBalanced _ _ (write_client-Keeps IsBalanced rewritten s5 h5)
                    λ _ s6 h6.
                      bind-Holds IsBalanced _ _
                        (response_body-Keeps IsBalanced fuel request response s6 h6) λ _ s7 h7. h7

  handle_one_exchange-Keeps :
      (fuel : ℕ) (schedule : List Peer)
      → Keeps IsBalanced (handle_one_exchange V config fuel schedule)
  unfolding handle_one_exchange
  handle_one_exchange-Keeps fuel schedule s h =
      bind-Holds IsBalanced _ _ (read_client-Keeps IsBalanced s h) λ request s1 h1.
        elim (Bool-cases (is_connect request.header)) [
          | inl with_connect ↦
              rw with_connect (handle_connect-Keeps IsBalanced schedule request.header s1 h1)
          | inr forwarded ↦ rw forwarded (forward_exchange-Keeps fuel request s1 h1)
        ]

  run_on-Holds :
      (o : Outcome V Bool) (rest : Session V → Outcome V (Unit {0}))
      → Keeps IsBalanced rest
      → Holds IsBalanced o
      → Holds IsBalanced {A = Unit {0}} (elim o [
        | done true s' ↦ rest s'
        | done false s' ↦ done tt (close V s')
        | stopped s' ↦ done tt (close V s')
        | thrown s' ↦ thrown s'
        | starved ↦ starved
      ])
  run_on-Holds (done true s') rest k h = k s' h
  run_on-Holds (done false s') rest k h = close-runtime IsBalanced s' h
  run_on-Holds (stopped s') rest k h = close-runtime IsBalanced s' h
  run_on-Holds (thrown s') rest k h = h
  run_on-Holds starved rest k h = tt

  run-Keeps :
      (exchanges fuel : ℕ) (schedule : List Peer)
      → Keeps IsBalanced (run V config exchanges fuel schedule)
  unfolding run
  run-Keeps zero fuel schedule s h = tt
  run-Keeps (suc exchanges) fuel schedule s h =
      run_on-Holds (handle_one_exchange V config fuel schedule s)
        (run V config exchanges fuel schedule) (run-Keeps exchanges fuel schedule)
        (handle_one_exchange-Keeps fuel schedule s h)

module _ (V : Environment) (L : QuickjsLaws V.quickjs) (config : Option HttpConfig) where
  -- However a session ends, normally or by an exception, after whatever requests and whatever its
  -- rules did: the script runtime has taken back as many references as it has handed out to the
  -- session.
  pub run-Balanced :
      (exchanges fuel : ℕ) (schedule : List Peer) (s : Session V)
      → Holds (Balanced L.counters s.runtime) (run V config exchanges fuel schedule s)
  run-Balanced exchanges fuel schedule s =
      run-Keeps V L config s.runtime exchanges fuel schedule s (omega arith)
