-- ===== src/Http/Environment.antt =====
-- What a session takes from outside: the sockets of both peers and the name resolver of Boost.Asio,
-- the parsers and serializers of Boost.Beast and Boost.URL, and QuickJS with the engine of the rules over it.
use proxypp.Prelude.{ℕ, String, Bool, Option, List}
use proxypp.Http.Stream.{ErrorCode, Peer, Sockets}
use proxypp.Http.Fields.{Fields}
use proxypp.Http.Adapter.{RequestHeader, ResponseHeader}
use proxypp.Http.BodyInfo.{RequestParser, ResponseParser}
use proxypp.Http.RemoteInfo.{UrlParsers}
use proxypp.Http.RemoteHeader.{Enumerations}
use proxypp.Script.Quickjs.{Quickjs}
use proxypp.Rule.Scripting.{RuleEngine}

-- The result of an operation that may fail, and the world behind it.
pub record Reply (W A : Type 0) : Type 0 where
  pub ec : Option ErrorCode
  pub value : A
  pub world : W

-- http::async_read_header: `none` for an error code; the read buffer keeps what follows the header.
pub record HeaderRead (W A : Type 0) : Type 0 where
  pub parser : Option A
  pub buffer : List ℕ
  pub world : W

pub record Environment : Type 2 where
  pub fields : Fields
  pub sockets : Sockets
  pub urls : UrlParsers
  pub enumerations : Enumerations
  pub quickjs : Quickjs
  pub engine : RuleEngine quickjs
  -- boost::algorithm::to_lower_copy
  pub to_lower : String → String
  pub Endpoint : Type 0
  pub async_resolve : String → String → sockets.World → Reply sockets.World (List Endpoint)
  pub async_connect : List Endpoint → sockets.World → Reply sockets.World (Unit {0})
  pub is_open : Peer → sockets.World → Bool
  pub shutdown : Peer → sockets.World → sockets.World
  pub close_socket : Peer → sockets.World → sockets.World
  pub read_request_header : List ℕ → sockets.World → HeaderRead sockets.World (RequestParser fields)
  pub read_response_header :
      List ℕ → sockets.World → HeaderRead sockets.World (ResponseParser fields)
  pub write_request_header : RequestHeader fields → sockets.World → Reply sockets.World (Unit {0})
  pub write_response_header : ResponseHeader fields → sockets.World → Reply sockets.World (Unit {0})
