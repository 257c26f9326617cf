-- ===== src/Core/TcpServer.antt =====
-- The server that accepts the clients: src/proxypp/core/tcp_server.{h,cpp}. Boost.Asio is a
-- parameter. Logging is left out, and what happens inside a session that was started is not seen
-- here.
pub mod Laws
use proxypp.Prelude.{
  ℕ, zero, suc, ◌+◌, ◌-◌, ◌*◌, ◌/◌, ◌%◌, ◌^◌, ◌≤◌, ◌<◌, min, String, ◌≡◌, refl, sym, ap, subst, ◌∙◌,
  ◌≡⟨◌⟩◌, ◌∎, ◌≢◌, ◌↔◌, ◌⊎◌, inl, inr, Bool, true, false, not, ◌&&◌, ◌||◌, Option, none, some, List,
  [], ◌∷◌, ◌++◌, map, append-nil, append_assoc, arith, eq_iff, ltb, leb, ◌==◌, ◌+++◌, str_eq,
  if◌then◌else◌, ltb→lt, lt→ltb, ==_iff, Bool-cases, Option-cases, length, take, drop, All,
  length-append, take-append-drop, length-take, length-drop, take-length, drop-length, filter,
  contains,
}
use proxypp.Error.{common, start_tcp_server_failed, Error, make_error, Result, ok, err}
use proxypp.Rule.Model.{HttpConfig}

-- boost::system::error_code, by what the code reads of it.
pub record SystemError : Type 0 where
  pub value_text : String
  pub category_name : String
  pub message : String

-- The acceptor of Boost.Asio, over its state; `none` is success.
pub record Acceptors : Type 1 where
  pub World : Type 0
  pub Address : Type 0
  -- asio::ip::make_address: `none` is the exception that it throws.
  pub make_address : String → Option Address
  pub address_text : Address → String
  -- A number as fmt writes it.
  pub number_text : ℕ → String
  pub open_acceptor : Address → World → Option SystemError × World
  pub enable_reuse_address : World → Option SystemError × World
  pub bind : Address → ℕ → World → Option SystemError × World
  pub listen : World → Option SystemError × World
  pub local_endpoint : World → String × ℕ

-- TcpServerOptions
pub record TcpServerOptions (Engine : Type 0) : Type 0 where
  pub address : String
  pub port : ℕ
  pub http_rule_config : Option HttpConfig
  pub rule_engine : Engine

pub record ListenEndpoint : Type 0 where
  pub address : String
  pub port : ℕ

-- A result, or an exception that leaves the function.
pub data Started : Type 0 where
  returned : Result ListenEndpoint → Started
  thrown : Started

module _ (N : Acceptors) where
  -- start_failed
  abbrev pub start_failed : String → SystemError → Error
  start_failed context ec = make_error (common start_tcp_server_failed) (
      context +++ ": " +++ ec.message +++ " (code=" +++ ec.value_text +++ ", category="
      +++ ec.category_name +++ ")")

  -- A call with an error code, and what follows a success.
  abbrev pub stage :
      String
      → Option SystemError × N.World
      → (N.World → Result ListenEndpoint × N.World)
      → Result ListenEndpoint × N.World
  stage context (some ec, w) next = (err (start_failed context ec), w)
  stage context (none, w) next = next w

  abbrev pub endpoint_text : N.Address → ℕ → String
  endpoint_text address port = N.address_text address +++ ":" +++ N.number_text port

  -- Start, from the endpoint on. StartAccept only schedules the accept loop.
  unfoldable pub listen_on : N.Address → ℕ → N.World → Result ListenEndpoint × N.World
  listen_on address port w =
      stage ("failed to open TCP acceptor for " +++ endpoint_text address port)
        (N.open_acceptor address w)
        λ w.
          stage
            ("failed to enable SO_REUSEADDR for TCP acceptor on " +++ endpoint_text address port)
            (N.enable_reuse_address w)
            λ w.
              stage ("failed to bind TCP acceptor to " +++ endpoint_text address port)
                (N.bind address port w)
                λ w.
                  stage ("failed to listen on TCP endpoint " +++ endpoint_text address port)
                    (N.listen w)
                    λ w. (
                      ok (record {
                        address = (N.local_endpoint w).0;
                        port = (N.local_endpoint w).1;
                      }),
                      w,
                    )

  abbrev pub start_at : Option N.Address → ℕ → N.World → Started × N.World
  start_at none port w = (thrown, w)
  start_at (some address) port w =
      let result = listen_on address port w in (returned result.0, result.1)

  -- TcpServer::Start; the port is narrowed to 16 bits.
  unfoldable pub start : {Engine : Type 0} → TcpServerOptions Engine → N.World → Started × N.World
  start options w = start_at (N.make_address options.address) (options.port % 2 ^ 16) w

-- A session as the loop creates it: the arguments of HttpProxySession.
pub record SessionArguments (Engine Socket : Type 0) : Type 0 where
  pub session_id : ℕ
  pub client_socket : Socket
  pub rule_engine : Engine
  pub http_rule_config : Option HttpConfig

-- What async_accept gives: an error code, told whether it is operation_aborted, or a socket.
pub data Accepted (Socket : Type 0) : Type 0 where
  failed : Bool → Accepted Socket
  accepted : Socket → Accepted Socket

-- TcpServer::next_session_id_, the sessions started so far, and whether the loop has returned.
pub record Server (Engine Socket : Type 0) : Type 0 where
  pub next_session_id : ℕ
  pub sessions : List (SessionArguments Engine Socket)
  pub stopped : Bool

abbrev pub constructed : {Engine Socket : Type 0} → Server Engine Socket
constructed = record { next_session_id = 1; sessions = []; stopped = false }

module _ {Engine Socket : Type 0} (options : TcpServerOptions Engine) where
  new_session : ℕ → Socket → SessionArguments Engine Socket
  new_session session_id socket = record {
    session_id = session_id;
    client_socket = socket;
    rule_engine = options.rule_engine;
    http_rule_config = options.http_rule_config;
  }

  -- One round of the loop of StartAccept; fetch_add wraps at 64 bits.
  unfoldable pub accept_one : Accepted Socket → Server Engine Socket → Server Engine Socket
  unfolding new_session
  accept_one (failed true) server = record server { stopped = true }
  accept_one (failed false) server = server
  accept_one (accepted socket) server = record server {
    next_session_id = (server.next_session_id + 1) % 2 ^ 64;
    sessions = server.sessions ++ new_session server.next_session_id socket ∷ [];
  }

  -- The loop over what async_accept gives, one after the other.
  unfoldable pub accept_loop : List (Accepted Socket) → Server Engine Socket → Server Engine Socket
  accept_loop [] server = server
  accept_loop (event ∷ events) server =
      let next = accept_one event server in
      let rest = accept_loop events next in if next.stopped then next else rest
