-- ===== src/Http/Session/Remote.antt =====
-- The connection to the remote: ResolveRemote, ConnectRemote and EnsureRemoteConnected.
pub mod Laws
use proxypp.Prelude.{
  ℕ, zero, suc, ◌+◌, ◌-◌, ◌*◌, ◌/◌, ◌%◌, ◌^◌, ◌≤◌, ◌<◌, min, String, ◌≡◌, refl, sym, ap, subst, ◌∙◌,
  ◌≡⟨◌⟩◌, ◌∎, ◌≢◌, ◌↔◌, ◌⊎◌, inl, inr, Bool, true, false, not, ◌&&◌, ◌||◌, Option, none, some, List,
  [], ◌∷◌, ◌++◌, map, append-nil, append_assoc, arith, eq_iff, ltb, leb, ◌==◌, str_eq,
  if◌then◌else◌, ltb→lt, lt→ltb, ==_iff, Bool-cases, Option-cases, length, take, drop, All,
  length-append, take-append-drop, length-take, length-drop, take-length, drop-length, filter,
  contains,
}
use proxypp.Http.Environment.{Environment}
use proxypp.Http.RemoteInfo.{RemoteInfo}
use proxypp.Http.Stream.{remote}
use proxypp.Http.Session.{
  RemoteConnectionState, Session, Outcome, done, stopped, thrown, starved, X, pure, bind, ◌>>=◌,
  ◌>>◌, check, close_remote,
}

module _ (V : Environment) where
  -- if(endpoints.empty()) co_return std::nullopt
  unfoldable pub nonempty_endpoints : List V.Endpoint → X V (List V.Endpoint)
  nonempty_endpoints [] s = stopped s
  nonempty_endpoints (e ∷ es) s = done (e ∷ es) s

  unfoldable pub resolve_remote : RemoteInfo → X V (List V.Endpoint)
  resolve_remote remote_info s =
      let r = V.async_resolve remote_info.host remote_info.port s.world in
      (check r.ec r.value >>= nonempty_endpoints) (record s { world = r.world })

  unfoldable pub connect_remote : List V.Endpoint → X V (Unit {0})
  connect_remote endpoints s =
      let r = V.async_connect endpoints s.world in check r.ec tt (record s { world = r.world })

  unfoldable pub set_remote_state : RemoteInfo → X V (Unit {0})
  set_remote_state remote_info s = done tt (record s {
    remote_state = record { host = remote_info.host; port = remote_info.port; connected = true };
  })

  -- Whether the connection that stands can serve the request.
  unfoldable pub can_reuse : RemoteInfo → Session V → Bool
  can_reuse remote_info s =
      (s.remote_state.connected && V.is_open remote s.world)
      && (str_eq s.remote_state.host remote_info.host
          && str_eq s.remote_state.port remote_info.port)

  unfoldable pub reconnect : RemoteInfo → X V (Unit {0})
  reconnect remote_info = do
    endpoints ← resolve_remote remote_info
    connect_remote endpoints
    set_remote_state remote_info

  unfoldable pub ensure_remote_connected : RemoteInfo → X V (Unit {0})
  ensure_remote_connected remote_info s =
      if can_reuse remote_info s then done tt s else reconnect remote_info (close_remote V s)
