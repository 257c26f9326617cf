-- ===== src/Http/Session/Exchange/Closing.antt =====
-- How a session ends: what Run leaves of the session in each of its outcomes.
use proxypp.Prelude.{
  ℕ, zero, suc, inl, inr, Bool, true, false, Option, none, some, List, Bool-cases,
}
use proxypp.Http.Environment.{Environment}
use proxypp.Http.Stream.{Peer}
use proxypp.Http.Adapter.{RequestHeader, ResponseHeader}
use proxypp.Http.BodyInfo.{RequestParser, is_connect}
use proxypp.Http.RemoteInfo.{parse_remote_info}
use proxypp.Http.RemoteHeader.{build_remote_request_header}
use proxypp.Rule.Model.{HttpConfig}
use proxypp.Http.Session.{Session, Outcome, done, stopped, thrown, starved, close}
use proxypp.Http.Session.Leaves.{
  IsOpen, IsClosed, Settled, Leaves, StaysOpen, bind-Leaves, or_stop-StaysOpen, or_throw-StaysOpen,
}
use proxypp.Http.Session.Body.Closing.{
  request_body-StaysOpen, response_body-StaysOpen, read_client-StaysOpen, read_remote-StaysOpen,
  write_remote-StaysOpen, write_client-StaysOpen,
}
use proxypp.Http.Session.Tunnel.Closing.{
  ensure-StaysOpen, close-IsClosed, Ends, handle_connect-Leaves,
}
use proxypp.Http.Session.Exchange.{
  rewrite_request, rewrite_response, prepare_request, keep_alive_result, forward_exchange,
  handle_one_exchange, run,
}

module _ (V : Environment) (config : Option HttpConfig) where
  rewrite_request-StaysOpen :
      (rules : Option HttpConfig) (header : RequestHeader V.fields)
      → StaysOpen (rewrite_request V config rules header)
  unfolding rewrite_request
  rewrite_request-StaysOpen none header s h = h
  rewrite_request-StaysOpen (some c) header s h = h

  rewrite_response-StaysOpen :
      (rules : Option HttpConfig) (request : RequestHeader V.fields)
      (header : ResponseHeader V.fields)
      → StaysOpen (rewrite_response V config rules request header)
  unfolding rewrite_response
  rewrite_response-StaysOpen none request header s h = h
  rewrite_response-StaysOpen (some c) request header s h = h

  prepare_request-StaysOpen :
      (request : RequestParser V.fields) → StaysOpen (prepare_request V config request)
  unfolding prepare_request
  prepare_request-StaysOpen request s h =
      bind-Leaves _ _ _ (or_stop-StaysOpen (parse_remote_info V.urls request.header) s h)
        λ info s1 h1. bind-Leaves _ _ _ (ensure-StaysOpen V info s1 h1) λ _ s2 h2.
          bind-Leaves _ _ _
            (or_throw-StaysOpen
              (build_remote_request_header V.fields V.enumerations request.header info) s2 h2)
            λ header s3 h3. rewrite_request-StaysOpen config header s3 h3

  -- A session that goes on is open.
  abbrev pub Goes : Bool → Session V → Type 0
  Goes true s = IsOpen s
  Goes false s = Settled s

  open-Goes : (b : Bool) (s : Session V) → IsOpen s → Goes b s
  open-Goes true s h = h
  open-Goes false s h = inl h

  Ends-Goes : (b : Bool) (s : Session V) → Ends V b s → Goes b s
  Ends-Goes true s (e, h) = cc
  Ends-Goes false s (e, h) = h

  weaken : (o : Outcome V Bool) → Leaves (Ends V) Settled o → Leaves Goes Settled o
  weaken (done b s) h = Ends-Goes b s h
  weaken (stopped s) h = h
  weaken (thrown s) h = h
  weaken starved h = tt

  forward_exchange-Leaves :
      (fuel : ℕ) (request : RequestParser V.fields) (s : Session V)
      → IsOpen s
      → Leaves Goes Settled (forward_exchange V config fuel request s)
  unfolding forward_exchange keep_alive_result
  forward_exchange-Leaves fuel request s h =
      bind-Leaves _ _ _ (prepare_request-StaysOpen request s h) λ header s1 h1.
        bind-Leaves _ _ _ (write_remote-StaysOpen V header s1 h1) λ _ s2 h2.
          bind-Leaves _ _ _ (request_body-StaysOpen V fuel request s2 h2) λ _ s3 h3.
            bind-Leaves _ _ _ (read_remote-StaysOpen V s3 h3) λ response s4 h4.
              bind-Leaves _ _ _ (rewrite_response-StaysOpen config header response.header s4 h4)
                λ rewritten s5 h5.
                  bind-Leaves _ _ _ (write_client-StaysOpen V rewritten s5 h5) λ _ s6 h6.
                    bind-Leaves _ _ _ (response_body-StaysOpen V fuel request response s6 h6)
                      λ _ s7 h7. open-Goes _ s7 h7

  handle_one_exchange-Leaves :
      (fuel : ℕ) (schedule : List Peer) (s : Session V)
      → IsOpen s
      → Leaves Goes Settled (handle_one_exchange V config fuel schedule s)
  unfolding handle_one_exchange
  handle_one_exchange-Leaves fuel schedule s h =
      bind-Leaves _ _ _ (read_client-StaysOpen V s h) λ request s1 h1.
        elim (Bool-cases (is_connect request.header)) [
          | inl with_connect ↦
              rw with_connect (weaken _ (handle_connect-Leaves V schedule request.header s1 h1))
          | inr forwarded ↦ rw forwarded (forward_exchange-Leaves fuel request s1 h1)
        ]

  -- What Run leaves: a closed session with no remote, or, behind an exception, an open one.
  abbrev pub RunLeaves : Outcome V (Unit {0}) → Type 0
  RunLeaves (done _ s) = IsClosed s
  RunLeaves (stopped s) = ⊥
  RunLeaves (thrown s) = IsOpen s
  RunLeaves starved = Unit {0}

  run_on-RunLeaves :
      (o : Outcome V Bool) (rest : Session V → Outcome V (Unit {0}))
      → ((s : Session V) → IsOpen s → RunLeaves (rest s))
      → Leaves Goes Settled o
      → RunLeaves (elim o [
        | done true s' ↦ rest s'
        | done false s' ↦ done tt (close V s')
        | stopped s' ↦ done tt (close V s')
        | thrown s' ↦ thrown s'
        | starved ↦ starved
      ])
  run_on-RunLeaves (done true s') rest k h = k s' h
  run_on-RunLeaves (done false s') rest k h = close-IsClosed V s' h
  run_on-RunLeaves (stopped s') rest k h = close-IsClosed V s' h
  run_on-RunLeaves (thrown s') rest k h = h
  run_on-RunLeaves starved rest k h = tt

  -- Where Run returns from a session that is not closed yet, the session is closed, and its remote
  -- state reset; where an exception leaves Run, Close() has not been called.
  pub run-RunLeaves :
      (exchanges fuel : ℕ) (schedule : List Peer) (s : Session V)
      → IsOpen s
      → RunLeaves (run V config exchanges fuel schedule s)
  unfolding run
  run-RunLeaves zero fuel schedule s h = tt
  run-RunLeaves (suc exchanges) fuel schedule s h =
      run_on-RunLeaves (handle_one_exchange V config fuel schedule s)
        (run V config exchanges fuel schedule) (run-RunLeaves exchanges fuel schedule)
        (handle_one_exchange-Leaves fuel schedule s h)
