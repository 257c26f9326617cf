-- ===== src/Http/Session/Tunnel/Heap.antt =====
-- A tunnel does not touch the script runtime.
use proxypp.Prelude.{inl, inr, true, List, [], ◌∷◌, Bool-cases}
use proxypp.Http.Environment.{Environment}
use proxypp.Http.Stream.{Peer, Step, failed, made}
use proxypp.Http.Session.{Session}
use proxypp.Http.Adapter.{RequestHeader}
use proxypp.Http.RemoteInfo.{parse_remote_info}
use proxypp.Http.Forward.{tunnel_round}
use proxypp.Http.Session.Body.{io_of}
use proxypp.Http.Session.Tunnel.{
  Running, runs, other_peer, write_connect_established_response_to_client, connect_established,
  after_tunnel_round, tunnel_step, tunnel_steps, when_remote_ended, relay_tunnel_bidirectional,
  handle_connect_exchange,
}
use proxypp.Http.Session.Heap.{
  Holds, Keeps, bind-Holds, or_stop-Keeps, check-Keeps, close-runtime, ensure-Keeps, put_io-runtime,
}

module _ {V : Environment} (P : V.quickjs.Heap → Type 0) where
  after_round-runtime :
      (p : Peer) (o : Step V.sockets (Unit {0})) (r : Running) (s : Session V)
      → P s.runtime
      → P (after_tunnel_round V p o (r, s)).1.runtime
  unfolding after_tunnel_round
  after_round-runtime p (made _ io) r s h = put_io-runtime P p io s h
  after_round-runtime p (failed io) r s h = close-runtime P _ (put_io-runtime P p io s h)

  tunnel_step-runtime :
      (p : Peer) (r : Running) (s : Session V) → P s.runtime → P (tunnel_step V p (r, s)).1.runtime
  unfolding tunnel_step
  tunnel_step-runtime p r s h = elim (Bool-cases (runs p r)) [
    | inl on ↦
        rw on (after_round-runtime p (tunnel_round V.sockets p (other_peer p) (io_of V p s)) r s h)
    | inr off ↦ rw off h
  ]

  tunnel_steps-runtime :
      (ps : List Peer) (r : Running) (s : Session V)
      → P s.runtime
      → P (tunnel_steps V ps (r, s)).1.runtime
  unfolding tunnel_steps
  tunnel_steps-runtime [] r s h = h
  tunnel_steps-runtime (p ∷ ps) r s h =
      let next = tunnel_step V p (r, s) in
      tunnel_steps-runtime ps next.0 next.1 (tunnel_step-runtime p r s h)

  when_remote_ended-Holds :
      (t : Running × Session V) → P t.1.runtime → Holds P (when_remote_ended V t)
  when_remote_ended-Holds (r, s) h = elim (Bool-cases r.from_remote) [
    | inl on ↦ rw on tt
    | inr off ↦ rw off h
  ]

  relay-Keeps : (schedule : List Peer) → Keeps P (relay_tunnel_bidirectional V schedule)
  unfolding relay_tunnel_bidirectional
  relay-Keeps schedule s h =
      let start : Running = record { from_client = true; from_remote = true } in
      when_remote_ended-Holds (tunnel_steps V schedule (start, s))
        (tunnel_steps-runtime schedule start s h)

  pub handle_connect-Keeps :
      (schedule : List Peer) (header : RequestHeader V.fields)
      → Keeps P (handle_connect_exchange V schedule header)
  unfolding handle_connect_exchange write_connect_established_response_to_client
  handle_connect-Keeps schedule header s h =
      bind-Holds P _ _ (or_stop-Keeps P (parse_remote_info V.urls header) s h) λ info s1 h1.
        bind-Holds P _ _ (ensure-Keeps P info s1 h1) λ _ s2 h2.
          bind-Holds P _ _
            (check-Keeps P (V.write_response_header (connect_established V) s2.world).ec tt _ h2)
            λ _ s3 h3. bind-Holds P _ _ (relay-Keeps schedule s3 h3) λ _ s4 h4. h4
