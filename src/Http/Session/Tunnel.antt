-- ===== src/Http/Session/Tunnel.antt =====
-- The tunnel of a CONNECT request: HandleConnectExchange, WriteConnectEstablishedResponseToClient,
-- RelayTunnelBidirectional and the two coroutines that it runs.
pub mod Closing
pub mod Heap
use proxypp.Prelude.{
  ℕ, zero, suc, ◌+◌, ◌-◌, ◌*◌, ◌/◌, ◌%◌, ◌^◌, ◌≤◌, ◌<◌, min, String, ◌≡◌, refl, sym, ap, subst, ◌∙◌,
  ◌≡⟨◌⟩◌, ◌∎, ◌≢◌, ◌↔◌, ◌⊎◌, inl, inr, Bool, true, false, not, ◌&&◌, ◌||◌, Option, none, some, List,
  [], ◌∷◌, ◌++◌, map, append-nil, append_assoc, arith, eq_iff, ltb, leb, ◌==◌, str_eq,
  if◌then◌else◌, ltb→lt, lt→ltb, ==_iff, Bool-cases, Option-cases, length, take, drop, All,
  length-append, take-append-drop, length-take, length-drop, take-length, drop-length, filter,
  contains,
}
use proxypp.Http.Environment.{Environment}
use proxypp.Http.Adapter.{RequestHeader, ResponseHeader}
use proxypp.Http.RemoteInfo.{parse_remote_info}
use proxypp.Http.Stream.{Peer, client, remote, Io, Step, failed, made}
use proxypp.Http.Forward.{tunnel_round}
use proxypp.Http.Session.{
  Session, Outcome, done, stopped, thrown, starved, X, pure, bind, ◌>>=◌, ◌>>◌, check, or_stop,
  close,
}
use proxypp.Http.Session.Body.{io_of, put_io}
use proxypp.Http.Session.Remote.{ensure_remote_connected}

abbrev pub other_peer : Peer → Peer
other_peer client = remote
other_peer remote = client

-- Which of the two coroutines of the tunnel still run, by the peer that they read from.
pub record Running : Type 0 where
  pub from_client : Bool
  pub from_remote : Bool

abbrev pub runs : Peer → Running → Bool
runs client r = r.from_client
runs remote r = r.from_remote

abbrev pub stop_running : Peer → Running → Running
stop_running client r = record r { from_client = false }
stop_running remote r = record r { from_remote = false }

module _ (V : Environment) where
  connect_established : ResponseHeader V.fields
  connect_established = record {
    result = 200;
    reason = "Connection Established";
    version = 11;
    fields = V.fields.set "Proxy-Connection" "keep-alive" V.fields.empty;
  }

  pub write_connect_established_response_to_client : X V (Unit {0})
  write_connect_established_response_to_client s =
      let r = V.write_response_header connect_established s.world in
      check r.ec tt (record s { world = r.world })

  -- The end of one round of ForwardViaTunnel: the loop goes on, or is broken and closes the session.
  after_tunnel_round : Peer → Step V.sockets (Unit {0}) → Running × Session V → Running × Session V
  after_tunnel_round from_peer (made _ io) (r, s) = (r, put_io V from_peer io s)
  after_tunnel_round from_peer (failed io) (r, s) =
      (stop_running from_peer r, close V (put_io V from_peer io s))

  -- One round of the coroutine that reads from `from_peer`, if it still runs.
  pub tunnel_step : Peer → Running × Session V → Running × Session V
  tunnel_step from_peer (r, s) =
      if runs from_peer r
      then after_tunnel_round from_peer
          (tunnel_round V.sockets from_peer (other_peer from_peer) (io_of V from_peer s)) (r, s)
      else (r, s)

  tunnel_steps : List Peer → Running × Session V → Running × Session V
  tunnel_steps [] t = t
  tunnel_steps (p ∷ ps) t = tunnel_steps ps (tunnel_step p t)

  -- It returns when the coroutine that reads from the remote has ended.
  abbrev when_remote_ended : Running × Session V → Outcome V (Unit {0})
  when_remote_ended (r, s) = if r.from_remote then starved else done tt s

  -- RelayTunnelBidirectional: the coroutines take turns as the schedule says, a round at a time. The
  -- one that reads from the client is detached; after the end of the other it may run on.
  pub relay_tunnel_bidirectional : List Peer → X V (Unit {0})
  relay_tunnel_bidirectional schedule s =
      when_remote_ended
        (tunnel_steps schedule (record { from_client = true; from_remote = true }, s))

  -- HandleConnectExchange: the value says whether the session goes on.
  pub handle_connect_exchange : List Peer → RequestHeader V.fields → X V Bool
  handle_connect_exchange schedule header = do
    remote_info ← or_stop (parse_remote_info V.urls header)
    ensure_remote_connected V remote_info
    write_connect_established_response_to_client
    relay_tunnel_bidirectional schedule
    pure false
