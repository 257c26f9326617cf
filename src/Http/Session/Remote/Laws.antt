-- ===== src/Http/Session/Remote/Laws.antt =====
-- What EnsureRemoteConnected leaves behind.
use proxypp.Prelude.{◌≡◌, true, false, arith, eq_iff}
use proxypp.Http.Environment.{Environment}
use proxypp.Http.RemoteInfo.{RemoteInfo}
use proxypp.Http.Session.{
  RemoteConnectionState, Session, Outcome, done, stopped, thrown, starved, close_remote,
  reset_remote_state,
}
use proxypp.Http.Session.Remote.{
  nonempty_endpoints, resolve_remote, connect_remote, set_remote_state, can_reuse, reconnect,
  ensure_remote_connected,
}

abbrev pub not_connected : RemoteConnectionState
not_connected = record { host = ""; port = ""; connected = false }

-- What a connection for `info` leaves of a session: connected to what was asked for, or to nothing.
abbrev pub ConnectedOrNot :
    {V : Environment} → RemoteInfo → Session V → Outcome V (Unit {0}) → Type 0
ConnectedOrNot info s (done _ s') =
    (s'.remote_state ≡ record { host = info.host; port = info.port; connected = true })
    × (s'.remote_read_buffer ≡ s.remote_read_buffer)
    × (s'.client_read_buffer ≡ s.client_read_buffer)
    × (s'.closed ≡ s.closed)
ConnectedOrNot info s (stopped s') =
    (s'.remote_state ≡ not_connected)
    × (s'.remote_read_buffer ≡ s.remote_read_buffer)
    × (s'.client_read_buffer ≡ s.client_read_buffer)
    × (s'.closed ≡ s.closed)
ConnectedOrNot info s (thrown s') = ⊥
ConnectedOrNot info s starved = ⊥

module _ (V : Environment) where
  -- If EnsureRemoteConnected returns true, the remote state names the host and the port that were asked for, and is connected; if it returns false, it is reset. It returns in every case, and leaves both read buffers as they are: also what is left of the answers of another remote.
  pub ensure_remote_connected_lem :
      (info : RemoteInfo) (s : Session V) → ConnectedOrNot info s (ensure_remote_connected V info s)
  unfolding ensure_remote_connected can_reuse reconnect resolve_remote connect_remote
      set_remote_state nonempty_endpoints close_remote reset_remote_state
  ensure_remote_connected_lem info s =
      ground (arith, eq_iff s.remote_state.host info.host, eq_iff s.remote_state.port info.port)
