-- ===== src/Http/RemoteInfo.antt =====
-- The remote host and the target that a request asks for: src/proxypp/http/
-- http_proxy_session.cpp, ParseRemoteInfo, ParseConnectRemoteInfo and ParseHttpRemoteInfo. Logging
-- is left out; the parsers of Boost.URL are a parameter.
pub mod Laws
use proxypp.Prelude.{
  ◌+++◌, ℕ, zero, suc, ◌+◌, ◌-◌, ◌*◌, ◌/◌, ◌%◌, ◌^◌, ◌≤◌, ◌<◌, min, String, ◌≡◌, refl, sym, ap,
  subst, ◌∙◌, ◌≡⟨◌⟩◌, ◌∎, ◌≢◌, ◌↔◌, ◌⊎◌, inl, inr, Bool, true, false, not, ◌&&◌, ◌||◌, Option, none,
  some, List, [], ◌∷◌, ◌++◌, map, append-nil, append_assoc, arith, eq_iff, ltb, leb, ◌==◌, str_eq,
  if◌then◌else◌, ltb→lt, lt→ltb, ==_iff, Bool-cases, Option-cases, length, take, drop, All,
  length-append, take-append-drop, length-take, length-drop, take-length, drop-length, filter,
  contains,
}
use proxypp.Http.Fields.{Fields}
use proxypp.Http.Adapter.{RequestHeader}
use proxypp.Http.BodyInfo.{is_connect}

-- What the code reads of a boost::urls::url_view.
pub record Url : Type 0 where
  pub scheme : String
  pub host : String
  pub port : String
  pub encoded_target : String
  pub encoded_path : String
  pub has_query : Bool
  pub encoded_query : String

-- And of a boost::urls::authority_view.
pub record Authority : Type 0 where
  pub host : String
  pub port : String

-- boost::urls::parse_absolute_uri and parse_authority; the other forms end in one failure, and are
-- told apart only for the log.
pub record UrlParsers : Type 0 where
  pub parse_absolute_uri : String → Option Url
  pub parse_authority : String → Option Authority

pub record RemoteInfo : Type 0 where
  pub scheme : String
  pub host : String
  pub port : String
  pub forward_target : String

abbrev pub is_empty_text : String → Bool
is_empty_text s = str_eq s ""

abbrev pub default_port : String → String
default_port port = if is_empty_text port then "80" else port

-- The path, "/" for an empty one, and the query.
abbrev pub forward_target_of : Url → String
forward_target_of url =
    let path = if is_empty_text url.encoded_path then "/" else url.encoded_path in
    if url.has_query then (path +++ "?") +++ url.encoded_query else path

module _ (U : UrlParsers) where
  unfoldable pub connect_remote_info : Option Authority → Option RemoteInfo
  connect_remote_info none = none
  connect_remote_info (some authority) =
      if is_empty_text authority.host
      then none
      else if is_empty_text authority.port
      then none
      else some (record {
        scheme = "tunnel";
        host = authority.host;
        port = authority.port;
        forward_target = "";
      })

  -- ParseConnectRemoteInfo
  unfoldable pub parse_connect_remote_info : String → Option RemoteInfo
  parse_connect_remote_info target = connect_remote_info (U.parse_authority target)

  unfoldable pub http_remote_info : Option Url → Option RemoteInfo
  http_remote_info none = none
  http_remote_info (some absolute_form) =
      if not (str_eq absolute_form.scheme "http")
      then none
      else if is_empty_text absolute_form.encoded_target
      then none
      else if is_empty_text absolute_form.host
      then none
      else some (record {
        scheme = absolute_form.scheme;
        host = absolute_form.host;
        port = default_port absolute_form.port;
        forward_target = forward_target_of absolute_form;
      })

  -- ParseHttpRemoteInfo
  unfoldable pub parse_http_remote_info : String → Option RemoteInfo
  parse_http_remote_info target = http_remote_info (U.parse_absolute_uri target)

  -- ParseRemoteInfo
  unfoldable pub parse_remote_info : {F : Fields} → RequestHeader F → Option RemoteInfo
  parse_remote_info header =
      if is_connect header
      then parse_connect_remote_info header.target
      else parse_http_remote_info header.target
