-- ===== src/Lib.antt =====
-- Verification of proxy++, an HTTP proxy with scriptable rules (paths are from the repository's
-- root).
--
-- A session (HttpProxySession) serves the requests of one client, one exchange after the other. It
-- reads a request header, finds the remote that the request asks for, connects to it or keeps the
-- connection that stands, builds the header for the remote, lets the rules change it, and forwards
-- header and body; then it does the same with the response in the other direction. A CONNECT request
-- turns the session into a tunnel instead. The rule engine goes over the configured rules; a rule has
-- a match expression, which a script runtime evaluates, and actions, which an executor applies to
-- the header through an adapter. The script runtime wraps the C interface of QuickJS: each wrapper owns
-- one value, context or runtime. main loads the rules, creates the engine and starts the server, which
-- accepts the clients and starts their sessions.
--
-- The files, and what they model:
--   Prelude: shared names, Boolean tests on the native numbers, lists, 32-bit integers.
--   Error: src/proxypp/error.{h,cpp}, result.h, rule/error.{h,cpp}, script/qjs/error.{h,cpp}.
--   Http/MessageUtils: src/proxypp/http/http_message_utils.cpp (FindCrlf, BufferPrefixToString,
--     ParseChunkSizeLine, StartsWithCrlf).
--   Http/BodyInfo: src/proxypp/http/body_info.{h,cpp} (DetermineBodyInfo).
--   Http/Fields: the header fields of Boost.Beast, a parameter, with the laws that are relied on.
--   Http/Adapter: src/proxypp/http/adapter/beast_{request,response}_adapter.cpp.
--   Http/Stream: ReadSomeFromPeer and WriteToPeer of src/proxypp/http/http_proxy_session.cpp, and the
--     sockets, a parameter, with their laws.
--   Http/Forward: ForwardExactly, ForwardChunked, ForwardUntilEof and ForwardViaTunnel of the same
--     file. Each loop takes fuel, one unit for a round.
--   Http/RemoteInfo: ParseRemoteInfo and the two functions that it chooses from.
--   Http/RemoteHeader: BuildRemoteRequestHeader and the messages that are serialized.
--   Http/Environment: all that a session takes from outside.
--   Http/Session: the state of HttpProxySession and its closing; Session/Remote: ResolveRemote,
--     ConnectRemote and EnsureRemoteConnected; Session/Body: the headers read and written, and the
--     bodies; Session/Tunnel: HandleConnectExchange and RelayTunnelBidirectional; Session/Exchange:
--     HandleOneExchange, ShouldKeepAlive and Run.
--   Rule/Model: src/proxypp/rule/{op,match,config}.h and rule/http/model.{h,cpp}.
--   Rule/Json: the conversion of an action from JSON, of rule/http/model.h.
--   Rule/Adapter: src/proxypp/rule/http/{request,response}_adapter.h, as an interface with laws.
--   Rule/Engine: RuleEngine::ApplyRules and ExecuteActions of src/proxypp/rule/rule_engine.h.
--   Rule/Executor: src/proxypp/rule/http/action_executor.cpp.
--   Rule/Apply: src/proxypp/rule/http/apply.cpp.
--   Rule/MatchContext: src/proxypp/rule/match_context.{h,cpp}.
--   Rule/Injector: src/proxypp/rule/http/context_injector.cpp.
--   Rule/Scripting: src/proxypp/rule/rule_engine.cpp, as the matcher of Rule/Apply.
--   Rule/File: src/proxypp/rule/rule_file.cpp; File/Schema: the text of its schema.
--   Script/Quickjs: the C interface of QuickJS, a parameter, with the references that it counts.
--   Script/Objects: what QuickJS promises of the properties of objects.
--   Script/Ledger: the accounting of references over operations that may fail.
--   Script/Value: src/proxypp/script/qjs/value.{h,cpp} and detail/exception_message.cpp; Value/Convert
--     and Value/Property: the conversions, and the properties and elements.
--   Script/ObjectBuilder, Script/Runtime, Script/Context, Script/Evaluator: the files of these names in
--     src/proxypp/script/qjs.
--   Core/TcpServer: src/proxypp/core/tcp_server.{h,cpp}.
--   Helper: src/proxypp/helper (the JSON, schema and file helpers).
--   App/ReadyFile: WriteReadyFile of src/app/main.cpp; App/Startup: main up to the event loop, with
--     src/proxypp/helper/cli_helper.cpp.
--   Examples: concrete parameters, tests, and the theorems at concrete inputs.
--
-- An operation of the session is a function of its state; it ends with a value, stops the exchange
-- (std::nullopt or false), throws, or is out of fuel. An operation of the rules returns a result
-- beside the state, which it may have changed also where it fails. A byte is a number, a buffer a
-- list of bytes, a text a String; std::size_t has 64 bits, and the only arithmetic on it that could
-- overflow, in ParseChunkSizeLine and behind a chunk-size line, is tested by the code as it is here.
--
-- Fuel: ForwardExactly is given enough by one unit more than the bytes that are left, if the source
-- does not end early, and ForwardUntilEof by one unit more than the reads that can succeed; for a
-- chunked body that stands in the buffer some fuel is always enough. A tunnel runs as long as its
-- peers send. Its two coroutines take turns as a schedule says, one round at a time.
--
-- References: the destructor of a local wrapper is called where its scope ends, and on the path of
-- each early return; the counters of the runtime say how many references it has handed out and taken
-- back.
--
-- Not modelled: logging, the declaration of the command line, the traits for JSON that macros
-- generate, and what Boost, QuickJS and jsoncons do, which are parameters. The handler that logs an
-- exception of a session is logging too.
pub mod Prelude
pub mod Error
pub mod Http
pub mod Script
pub mod Core
pub mod Helper
pub mod Rule
pub mod App
pub mod Examples
