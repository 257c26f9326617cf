-- ===== src/Http/Session/Tunnel/Closing.antt =====
-- A tunnel ends the session.
use proxypp.Prelude.{◌≡◌, refl, ◌∙◌, inl, inr, Bool, true, false, List, [], ◌∷◌, arith, Bool-cases}
use proxypp.Http.Environment.{Environment}
use proxypp.Http.Stream.{Peer, Step, failed, made}
use proxypp.Http.Session.{
  Session, Outcome, done, stopped, thrown, starved, pure, bind, close, close_client, close_remote,
  reset_remote_state,
}
use proxypp.Http.Session.Leaves.{
  IsOpen, IsClosed, Settled, Leaves, StaysOpen, bind-Leaves, or_stop-StaysOpen, check-StaysOpen,
}
use proxypp.Http.Adapter.{RequestHeader}
use proxypp.Http.RemoteInfo.{RemoteInfo, parse_remote_info}
use proxypp.Http.Forward.{tunnel_round}
use proxypp.Http.Session.Body.{io_of}
use proxypp.Http.Session.Body.Closing.{put_io-Settled}
use proxypp.Http.Session.Remote.{ensure_remote_connected}
use proxypp.Http.Session.Remote.Laws.{ConnectedOrNot, ensure_remote_connected_lem}
use proxypp.Http.Session.Tunnel.{
  Running, runs, other_peer, write_connect_established_response_to_client, connect_established,
  after_tunnel_round, tunnel_step, tunnel_steps, when_remote_ended, relay_tunnel_bidirectional,
  handle_connect_exchange,
}

module _ (V : Environment) where
  ensure-Leaves :
      (info : RemoteInfo) (s : Session V) (o : Outcome V (Unit {0}))
      → IsOpen s
      → ConnectedOrNot info s o
      → Leaves (λ _. IsOpen) Settled o
  ensure-Leaves info s (done _ t) h p = p.3 ∙ h
  ensure-Leaves info s (stopped t) h p = inl (p.3 ∙ h)
  ensure-Leaves info s (thrown t) h p = absurd p
  ensure-Leaves info s starved h p = absurd p

  pub ensure-StaysOpen : (info : RemoteInfo) → StaysOpen (ensure_remote_connected V info)
  ensure-StaysOpen info s h =
      ensure-Leaves info s (ensure_remote_connected V info s) h
        (ensure_remote_connected_lem V info s)

  -- Close() closes, once.
  pub close-IsClosed : (s : Session V) → Settled s → IsClosed (close V s)
  unfolding close close_client close_remote reset_remote_state
  close-IsClosed s h = ground arith

  after_round-Settled :
      (p : Peer) (o : Step V.sockets (Unit {0})) (r : Running) (s : Session V)
      → Settled s
      → Settled (after_tunnel_round V p o (r, s)).1
  unfolding after_tunnel_round
  after_round-Settled p (made _ io) r s h = put_io-Settled V p io s h
  after_round-Settled p (failed io) r s h = inr (close-IsClosed _ (put_io-Settled V p io s h))

  tunnel_step-Settled :
      (p : Peer) (r : Running) (s : Session V) → Settled s → Settled (tunnel_step V p (r, s)).1
  unfolding tunnel_step
  tunnel_step-Settled p r s h = elim (Bool-cases (runs p r)) [
    | inl on ↦
        rw on (after_round-Settled p (tunnel_round V.sockets p (other_peer p) (io_of V p s)) r s h)
    | inr off ↦ rw off h
  ]

  tunnel_steps-Settled :
      (ps : List Peer) (r : Running) (s : Session V)
      → Settled s
      → Settled (tunnel_steps V ps (r, s)).1
  unfolding tunnel_steps
  tunnel_steps-Settled [] r s h = h
  tunnel_steps-Settled (p ∷ ps) r s h =
      let next = tunnel_step V p (r, s) in
      tunnel_steps-Settled ps next.0 next.1 (tunnel_step-Settled p r s h)

  when_remote_ended-Leaves :
      (t : Running × Session V)
      → Settled t.1
      → Leaves (λ _. Settled) Settled (when_remote_ended V t)
  when_remote_ended-Leaves (r, s) h = elim (Bool-cases r.from_remote) [
    | inl on ↦ rw on tt
    | inr off ↦ rw off h
  ]

  relay-Leaves :
      (schedule : List Peer) (s : Session V)
      → Settled s
      → Leaves (λ _. Settled) Settled (relay_tunnel_bidirectional V schedule s)
  unfolding relay_tunnel_bidirectional
  relay-Leaves schedule s h =
      let start : Running = record { from_client = true; from_remote = true } in
      when_remote_ended-Leaves (tunnel_steps V schedule (start, s))
        (tunnel_steps-Settled schedule start s h)

  -- A settled session, and no next exchange.
  abbrev pub Ends : Bool → Session V → Type 0
  Ends goes_on s = (goes_on ≡ false) × Settled s

  no_next :
      (o : Outcome V (Unit {0}))
      → Leaves (λ _. Settled) Settled o
      → Leaves Ends Settled (bind o (λ _. pure false))
  no_next (done _ s) h = (refl, h)
  no_next (stopped s) h = h
  no_next (thrown s) h = h
  no_next starved h = tt

  -- A CONNECT exchange is the last one.
  pub handle_connect-Leaves :
      (schedule : List Peer) (header : RequestHeader V.fields) (s : Session V)
      → IsOpen s
      → Leaves Ends Settled (handle_connect_exchange V schedule header s)
  unfolding handle_connect_exchange write_connect_established_response_to_client
  handle_connect-Leaves schedule header s h =
      bind-Leaves _ _ _ (or_stop-StaysOpen (parse_remote_info V.urls header) s h) λ info s1 h1.
        bind-Leaves _ _ _ (ensure-StaysOpen info s1 h1) λ _ s2 h2.
          bind-Leaves _ _ _
            (check-StaysOpen (V.write_response_header (connect_established V) s2.world).ec tt _ h2)
            λ _ s3 h3. no_next _ (relay-Leaves schedule s3 (inl h3))
