-- ===== src/Http/BodyInfo.antt =====
-- How the body of a message is delimited: src/proxypp/http/body_info.{h,cpp}.
pub mod Laws
use mathlib.Core.Option
use proxypp.Prelude.{
  ℕ, zero, suc, ◌+◌, ◌-◌, ◌*◌, ◌/◌, ◌%◌, ◌^◌, ◌≤◌, ◌<◌, min, String, ◌≡◌, refl, sym, ap, subst, ◌∙◌,
  ◌≡⟨◌⟩◌, ◌∎, ◌≢◌, ◌↔◌, ◌⊎◌, inl, inr, Bool, true, false, not, ◌&&◌, ◌||◌, Option, List, [], ◌∷◌,
  ◌++◌, map, append-nil, append_assoc, arith, eq_iff, ltb, leb, ◌==◌, str_eq, if◌then◌else◌, ltb→lt,
  lt→ltb, ==_iff, Bool-cases, Option-cases, length, take, drop, All, length-append,
  take-append-drop, length-take, length-drop, take-length, drop-length, filter, contains,
}
use proxypp.Http.Fields.{Fields}
use proxypp.Http.Adapter.{RequestHeader, ResponseHeader}

-- What the code reads of a parsed request header (http::request_parser).
pub record RequestParser (F : Fields) : Type 0 where
  pub header : RequestHeader F
  pub chunked : Bool
  pub content_length : Option ℕ
  pub keep_alive : Bool

-- What it reads of a parsed response header (http::response_parser).
pub record ResponseParser (F : Fields) : Type 0 where
  pub header : ResponseHeader F
  pub chunked : Bool
  pub content_length : Option ℕ
  pub keep_alive : Bool

pub data RequestBodyFraming : Type 0 where
  none content_length chunked : RequestBodyFraming

pub data ResponseBodyFraming : Type 0 where
  none content_length chunked close_delimited tunnel : ResponseBodyFraming

-- BodyInfo
pub record RequestBodyInfo : Type 0 where
  pub framing : RequestBodyFraming
  pub content_length : ℕ

pub record ResponseBodyInfo : Type 0 where
  pub framing : ResponseBodyFraming
  pub content_length : ℕ

-- method() == http_::verb::connect, and == head
abbrev pub is_connect : {F : Fields} → RequestHeader F → Bool
is_connect r = str_eq r.method "CONNECT"

abbrev pub is_head : {F : Fields} → RequestHeader F → Bool
is_head r = str_eq r.method "HEAD"

unfoldable pub request_by_length : Option ℕ → RequestBodyInfo
request_by_length (Option.some n) = record {
  framing = RequestBodyFraming.content_length;
  content_length = n;
}
request_by_length Option.none = record { framing = RequestBodyFraming.none; content_length = 0 }

-- DetermineBodyInfo of a request.
unfoldable pub determine_request_body : {F : Fields} → RequestParser F → RequestBodyInfo
unfolding request_by_length
determine_request_body request =
    if request.chunked
    then record { framing = RequestBodyFraming.chunked; content_length = 0 }
    else request_by_length request.content_length

unfoldable pub response_by_length : Option ℕ → ResponseBodyInfo
response_by_length (Option.some n) = record {
  framing = ResponseBodyFraming.content_length;
  content_length = n;
}
response_by_length Option.none = record {
  framing = ResponseBodyFraming.close_delimited;
  content_length = 0;
}

abbrev framed : ResponseBodyFraming → ResponseBodyInfo
framed framing = record { framing = framing; content_length = 0 }

-- DetermineBodyInfo of a response.
unfoldable pub determine_response_body :
    {F : Fields} → RequestParser F → ResponseParser F → ResponseBodyInfo
unfolding response_by_length
determine_response_body request response =
    let status_code = response.header.result in
    if is_head request.header
    then framed ResponseBodyFraming.none
    else if leb 100 status_code && ltb status_code 200
    then framed ResponseBodyFraming.none
    else if status_code == 204 || status_code == 304
    then framed ResponseBodyFraming.none
    else if is_connect request.header && (leb 200 status_code && ltb status_code 300)
    then framed ResponseBodyFraming.tunnel
    else if response.chunked
    then framed ResponseBodyFraming.chunked
    else response_by_length response.content_length
