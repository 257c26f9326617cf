-- ===== src/Http/Session.antt =====
-- The proxy session: src/proxypp/http/http_proxy_session.{h,cpp}. Logging is left out. An operation
-- on the session ends in one of four ways: with a value; with std::nullopt or false, which closes the
-- exchange; with an exception; or without fuel.
pub mod Leaves
pub mod Heap
pub mod Remote
pub mod Body
pub mod Tunnel
pub mod Exchange
use proxypp.Prelude.{
  ℕ, zero, suc, ◌+◌, ◌-◌, ◌*◌, ◌/◌, ◌%◌, ◌^◌, ◌≤◌, ◌<◌, min, String, ◌≡◌, refl, sym, ap, subst, ◌∙◌,
  ◌≡⟨◌⟩◌, ◌∎, ◌≢◌, ◌↔◌, ◌⊎◌, inl, inr, Bool, true, false, not, ◌&&◌, ◌||◌, Option, none, some, List,
  [], ◌∷◌, ◌++◌, map, append-nil, append_assoc, arith, eq_iff, ltb, leb, ◌==◌, str_eq,
  if◌then◌else◌, ltb→lt, lt→ltb, ==_iff, Bool-cases, Option-cases, length, take, drop, All,
  length-append, take-append-drop, length-take, length-drop, take-length, drop-length, filter,
  contains,
}
use proxypp.Http.Stream.{Peer, client, remote, Io, Step, failed, made}
use proxypp.Http.Environment.{Environment}

pub record RemoteConnectionState : Type 0 where
  pub host : String
  pub port : String
  pub connected : Bool

pub record Session (V : Environment) : Type 0 where
  pub world : V.sockets.World
  pub runtime : V.quickjs.Heap
  pub client_read_buffer : List ℕ
  pub remote_read_buffer : List ℕ
  pub remote_state : RemoteConnectionState
  pub closed : Bool

pub data Outcome (V : Environment) (A : Type 0) : Type 0 where
  done : A → Session V → Outcome V A
  stopped : Session V → Outcome V A
  thrown : Session V → Outcome V A
  starved : Outcome V A

abbrev pub X : Environment → Type 0 → Type 0
X V A = Session V → Outcome V A

module _ {V : Environment} where
  abbrev pub pure : {A : Type 0} → A → X V A
  pure a s = done a s

  abbrev pub bind : {A B : Type 0} → Outcome V A → (A → X V B) → Outcome V B
  bind (done a s) f = f a s
  bind (stopped s) f = stopped s
  bind (thrown s) f = thrown s
  bind starved f = starved

  infixl 5 ◌>>=◌ ◌>>◌
  abbrev pub ◌>>=◌ : {A B : Type 0} → X V A → (A → X V B) → X V B
  ◌>>=◌ m f s = bind (m s) f

  abbrev pub ◌>>◌ : {A B : Type 0} → X V A → X V B → X V B
  m >> k = m >>= λ _. k

  -- std::nullopt closes the exchange.
  abbrev pub or_stop : {A : Type 0} → Option A → X V A
  or_stop none s = stopped s
  or_stop (some a) s = done a s

  abbrev pub or_throw : {A : Type 0} → Option A → X V A
  or_throw none s = thrown s
  or_throw (some a) s = done a s

  -- A result with an error code closes the exchange.
  abbrev pub check : {A B : Type 0} → Option B → A → X V A
  check none a s = done a s
  check (some code) a s = stopped s

module _ (V : Environment) where
  -- CloseSocket
  unfoldable pub close_socket : Peer → V.sockets.World → V.sockets.World
  close_socket peer w = if V.is_open peer w then V.close_socket peer (V.shutdown peer w) else w

  -- ResetRemoteState
  unfoldable pub reset_remote_state : Session V → Session V
  reset_remote_state s = record s {
    remote_state = record { host = ""; port = ""; connected = false };
  }

  -- CloseRemote
  unfoldable pub close_remote : Session V → Session V
  close_remote s = reset_remote_state (record s { world = close_socket remote s.world })

  -- CloseClient
  unfoldable pub close_client : Session V → Session V
  close_client s = record s { world = close_socket client s.world }

  -- Close
  unfoldable pub close : Session V → Session V
  close s = if s.closed then s else close_client (close_remote (record s { closed = true }))
