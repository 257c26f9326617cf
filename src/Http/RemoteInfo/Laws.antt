-- ===== src/Http/RemoteInfo/Laws.antt =====
-- What a remote that was parsed is good for.
use proxypp.Prelude.{
  String, ◌≡◌, refl, sym, ap, subst, ◌∙◌, ◌+++◌, ◌≢◌, ◌↔◌, inl, inr, true, false, Option, none,
  some, arith, eq_iff, Bool-cases, str_eq, if◌then◌else◌,
}
use proxypp.Http.Fields.{Fields}
use proxypp.Http.Adapter.{RequestHeader}
use proxypp.Http.BodyInfo.{is_connect}
use proxypp.Http.RemoteInfo.{
  is_empty_text, Url, Authority, UrlParsers, RemoteInfo, default_port, forward_target_of,
  connect_remote_info, parse_connect_remote_info, http_remote_info, parse_http_remote_info,
  parse_remote_info,
}

-- The port of a URI: the one that it names, or 80.
pub data PortOf (url : Url) (port : String) : Type 0 where
  named : url.port ≢ "" → port ≡ url.port → PortOf url port
  unnamed : url.port ≡ "" → port ≡ "80" → PortOf url port

-- The path of a URI, or "/" where it is empty.
pub data PathOf (url : Url) (path : String) : Type 0 where
  written : url.encoded_path ≢ "" → path ≡ url.encoded_path → PathOf url path
  root : url.encoded_path ≡ "" → path ≡ "/" → PathOf url path

-- The path, and behind it the query with its question mark if there is one.
pub data TargetOf (url : Url) (target : String) : Type 0 where
  with_query :
      (path : String)
      → url.has_query ≡ true
      → PathOf url path
      → target ≡ (path +++ "?") +++ url.encoded_query
      → TargetOf url target
  without_query : url.has_query ≡ false → PathOf url target → TargetOf url target

-- The requests that the proxy accepts, and the remote that each asks for.
pub data AsksFor (U : UrlParsers) {F : Fields} (header : RequestHeader F)
    : RemoteInfo → Type 0 where
  tunnel :
      (info : RemoteInfo) (authority : Authority)
      → header.method ≡ "CONNECT"
      → U.parse_authority header.target ≡ some authority
      → authority.host ≢ ""
      → authority.port ≢ ""
      → info ≡ record {
        scheme = "tunnel";
        host = authority.host;
        port = authority.port;
        forward_target = "";
      }
      → AsksFor U header info
  absolute :
      (info : RemoteInfo) (url : Url)
      → header.method ≢ "CONNECT"
      → U.parse_absolute_uri header.target ≡ some url
      → url.scheme ≡ "http"
      → url.encoded_target ≢ ""
      → url.host ≢ ""
      → info.scheme ≡ "http"
      → info.host ≡ url.host
      → PortOf url info.port
      → TargetOf url info.forward_target
      → AsksFor U header info

default_port-PortOf : (url : Url) → PortOf url (default_port url.port)
default_port-PortOf url = elim (Bool-cases (str_eq url.port "")) [
  | inl no_port ↦ unnamed ((eq_iff _ _).0 no_port) (rw no_port refl)
  | inr some_port ↦ named (λ h. ground (arith, eq_iff url.port "")) (rw some_port refl)
]

PortOf-default_port : (url : Url) (port : String) → PortOf url port → port ≡ default_port url.port
PortOf-default_port url port (named h e) = ground (arith, eq_iff url.port "")
PortOf-default_port url port (unnamed h e) = ground (arith, eq_iff url.port "")

-- The path that the code builds.
abbrev path_text : Url → String
path_text url = if is_empty_text url.encoded_path then "/" else url.encoded_path

path_text-PathOf : (url : Url) → PathOf url (path_text url)
path_text-PathOf url = elim (Bool-cases (str_eq url.encoded_path "")) [
  | inl no_path ↦ root ((eq_iff _ _).0 no_path) (rw no_path refl)
  | inr some_path ↦ written (λ h. ground (arith, eq_iff url.encoded_path "")) (rw some_path refl)
]

PathOf-path_text : (url : Url) (path : String) → PathOf url path → path ≡ path_text url
PathOf-path_text url path (written h e) = ground (arith, eq_iff url.encoded_path "")
PathOf-path_text url path (root h e) = ground (arith, eq_iff url.encoded_path "")

forward_target_of-TargetOf : (url : Url) → TargetOf url (forward_target_of url)
forward_target_of-TargetOf url = elim (Bool-cases url.has_query) [
  | inl query ↦ with_query (path_text url) query (path_text-PathOf url) (rw query refl)
  | inr no_query ↦
      let same : forward_target_of url ≡ path_text url = rw no_query refl in
      without_query no_query (subst (PathOf url) (sym same) (path_text-PathOf url))
]

TargetOf-forward_target_of :
    (url : Url) (target : String) → TargetOf url target → target ≡ forward_target_of url
TargetOf-forward_target_of url target (with_query path query p e) =
    rw query (e ∙ ap (λ z. (z +++ "?") +++ url.encoded_query) (PathOf-path_text url path p))
TargetOf-forward_target_of url target (without_query no_query p) =
    rw no_query (PathOf-path_text url target p)

module _ (U : UrlParsers) {F : Fields} (header : RequestHeader F) where
  connect_remote_info-some :
      (o : Option Authority) (info : RemoteInfo)
      → header.method ≡ "CONNECT"
      → U.parse_authority header.target ≡ o
      → connect_remote_info U o ≡ some info
      → AsksFor U header info
  unfolding connect_remote_info
  connect_remote_info-some none info m p e = cc
  connect_remote_info-some (some a) info m p e =
      tunnel info a m p (λ h. ground (arith, eq_iff a.host ""))
        (λ h. ground (arith, eq_iff a.port "")) (ground arith)

  abbrev asked_for : Url → RemoteInfo
  asked_for url = record {
    scheme = "http";
    host = url.host;
    port = default_port url.port;
    forward_target = forward_target_of url;
  }

  -- The four parts together.
  asked :
      (url : Url) (info : RemoteInfo)
      → info.scheme ≡ "http"
      → info.host ≡ url.host
      → PortOf url info.port
      → TargetOf url info.forward_target
      → info ≡ asked_for url
  asked url info s h p t =
      let port = PortOf-default_port url info.port p in
      let target = TargetOf-forward_target_of url info.forward_target t in
      λ i. record { scheme = s i; host = h i; port = port i; forward_target = target i }

  http_remote_info-some :
      (o : Option Url) (info : RemoteInfo)
      → header.method ≢ "CONNECT"
      → U.parse_absolute_uri header.target ≡ o
      → http_remote_info U o ≡ some info
      → AsksFor U header info
  unfolding http_remote_info
  http_remote_info-some none info m p e = cc
  http_remote_info-some (some url) info m p e =
      let same : info ≡ asked_for url = ground (arith, eq_iff url.scheme "http") in
      absolute info url m p (ground (arith, eq_iff url.scheme "http"))
        (λ h. ground (arith, eq_iff url.encoded_target ""))
        (λ h. ground (arith, eq_iff url.host "")) (ap (λ (i : RemoteInfo). i.scheme) same)
        (ap (λ (i : RemoteInfo). i.host) same)
        (subst (λ (i : RemoteInfo). PortOf url i.port) (sym same) (default_port-PortOf url))
        (subst (λ (i : RemoteInfo). TargetOf url i.forward_target) (sym same)
          (forward_target_of-TargetOf url))

  parse_remote_info-AsksFor :
      (info : RemoteInfo) → parse_remote_info U header ≡ some info → AsksFor U header info
  unfolding parse_remote_info parse_connect_remote_info parse_http_remote_info
  parse_remote_info-AsksFor info e = elim (Bool-cases (is_connect header)) [
    | inl with_connect ↦
        connect_remote_info-some (U.parse_authority header.target) info
          ((eq_iff _ _).0 with_connect) refl (rw (with_connect, parse_remote_info) at e)
    | inr other_method ↦
        http_remote_info-some (U.parse_absolute_uri header.target) info
          (λ h. ground (arith, eq_iff header.method "CONNECT")) refl
          (rw (other_method, parse_remote_info) at e)
  ]

  AsksFor-parse_remote_info :
      (info : RemoteInfo) → AsksFor U header info → parse_remote_info U header ≡ some info
  unfolding parse_remote_info parse_connect_remote_info parse_http_remote_info connect_remote_info
      http_remote_info
  AsksFor-parse_remote_info info (tunnel _ a m p h k same) =
      ground (arith, eq_iff header.method "CONNECT", eq_iff a.host "", eq_iff a.port "")
  AsksFor-parse_remote_info info (absolute _ url m p s t h s' h' port target) = ground (
    arith,
    asked url info s' h' port target,
    eq_iff header.method "CONNECT",
    eq_iff url.scheme "http",
    eq_iff url.encoded_target "",
    eq_iff url.host "",
  )

  -- ParseRemoteInfo gives a remote exactly for a CONNECT to a host and a port, and for another
  -- method with an absolute URI of the scheme http with a host and a target; the remote is that
  -- host, at that port or at port 80 where the URI names none; what is to be forwarded is the path
  -- of the URI, "/" where it is empty, and behind it "?" and the query if the URI has one.
  pub parse_remote_info_iff :
      (info : RemoteInfo) → (parse_remote_info U header ≡ some info) ↔ AsksFor U header info
  parse_remote_info_iff info = (parse_remote_info-AsksFor info, AsksFor-parse_remote_info info)
