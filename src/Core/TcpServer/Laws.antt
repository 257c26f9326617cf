-- ===== src/Core/TcpServer/Laws.antt =====
-- Which sessions the server starts, and with which numbers.
use proxypp.Prelude.{
  ℕ, suc, ◌+◌, ◌%◌, ◌^◌, ◌<◌, ◌≡◌, refl, sym, ap, ◌∙◌, Bool, true, false, List, [], ◌∷◌, ◌++◌,
  append-nil, append_assoc, arith, if◌then◌else◌, length, All, All-append, Bool-cases, inl, inr,
}
use proxypp.Core.TcpServer.{
  TcpServerOptions, SessionArguments, Accepted, failed, accepted, Server, constructed, new_session,
  accept_one, accept_loop,
}

-- The sockets that are accepted before the acceptor is closed.
abbrev pub accepted_sockets : {Socket : Type 0} → List (Accepted Socket) → List Socket
accepted_sockets [] = []
accepted_sockets (failed true ∷ events) = []
accepted_sockets (failed false ∷ events) = accepted_sockets events
accepted_sockets (accepted socket ∷ events) = socket ∷ accepted_sockets events

module _ {Engine Socket : Type 0} (options : TcpServerOptions Engine) where
  -- The sessions of these sockets, numbered from `first` on.
  abbrev pub numbered : ℕ → List Socket → List (SessionArguments Engine Socket)
  numbered first [] = []
  numbered first (socket ∷ sockets) =
      record {
        session_id = first;
        client_socket = socket;
        rule_engine = options.rule_engine;
        http_rule_config = options.http_rule_config;
      }
      ∷ numbered (suc first) sockets

  goes_on :
      (here later : Server Engine Socket) (b : Bool)
      → b ≡ false
      → (if b then here else later) ≡ later
  goes_on here later b running = rw running refl

  accept_loop-numbered :
      (events : List (Accepted Socket)) (server : Server Engine Socket)
      → server.stopped ≡ false
      → server.next_session_id + length (accepted_sockets events) < 2 ^ 64
      → (accept_loop options events server).sessions
        ≡ server.sessions ++ numbered server.next_session_id (accepted_sockets events)
  unfolding accept_loop accept_one new_session
  accept_loop-numbered [] server running bound = sym (append-nil server.sessions)
  accept_loop-numbered (failed true ∷ events) server running bound =
      sym (append-nil server.sessions)
  accept_loop-numbered (failed false ∷ events) server running bound =
      ap (λ (r : Server Engine Socket). r.sessions)
        (goes_on server (accept_loop options events server) server.stopped running)
      ∙ accept_loop-numbered events server running bound
  accept_loop-numbered (accepted socket ∷ events) server running bound =
      let next = accept_one options (accepted socket) server in
      let small : (server.next_session_id + 1) % 2 ^ 64 ≡ suc server.next_session_id =
        omega (arith, bound) in
      ap (λ (r : Server Engine Socket). r.sessions)
        (goes_on next (accept_loop options events next) next.stopped running)
      ∙ accept_loop-numbered events next running (omega (arith, bound, small))
      ∙ ap
          (λ n.
            (server.sessions ++ new_session options server.next_session_id socket ∷ [])
            ++ numbered n (accepted_sockets events))
          small
      ∙ append_assoc server.sessions _ _

  -- A session that has the rule engine and the rules of the options.
  abbrev pub HasOptions : SessionArguments Engine Socket → Type 0
  HasOptions session =
      (session.rule_engine ≡ options.rule_engine)
      × (session.http_rule_config ≡ options.http_rule_config)

  accept_one-All :
      (event : Accepted Socket) (server : Server Engine Socket)
      → All HasOptions server.sessions
      → All HasOptions (accept_one options event server).sessions
  unfolding accept_one new_session
  accept_one-All (failed true) server h = h
  accept_one-All (failed false) server h = h
  accept_one-All (accepted socket) server h =
      All-append HasOptions server.sessions _ h ((refl, refl), tt)

  pub accept_loop-All :
      (events : List (Accepted Socket)) (server : Server Engine Socket)
      → All HasOptions server.sessions
      → All HasOptions (accept_loop options events server).sessions
  unfolding accept_loop accept_one new_session
  accept_loop-All [] server h = h
  accept_loop-All (event ∷ events) server h =
      let next = accept_one options event server in
      let kept = accept_one-All event server h in
      elim (Bool-cases next.stopped) [
        | inl closed ↦ rw closed kept
        | inr running ↦ rw running (accept_loop-All events next kept)
      ]

  -- As long as fewer than 2^64 - 1 clients come, the server starts one session for each socket that
  -- it accepts before its acceptor is closed, in this order, numbered 1, 2, 3 and so on, all with
  -- the rule engine and the rules of its options; an accept that fails starts none.
  pub accept_loop_lem :
      (events : List (Accepted Socket))
      → suc (length (accepted_sockets events)) < 2 ^ 64
      → (accept_loop options events constructed).sessions ≡ numbered 1 (accepted_sockets events)
  accept_loop_lem events bound = accept_loop-numbered events constructed refl (omega arith)
