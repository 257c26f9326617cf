-- ===== src/Http/BodyInfo/Laws.antt =====
-- Which body a response has, by the cases of RFC 9112, section 6.3.
use proxypp.Prelude.{
  ℕ, ◌≤◌, ◌<◌, ◌≡◌, refl, ◌⊎◌, inl, inr, Bool, true, false, ◌&&◌, ◌||◌, Option, none, some, arith,
  eq_iff, ltb, leb, ◌==◌, if◌then◌else◌, Bool-cases,
}
use proxypp.Http.Fields.{Fields}
use proxypp.Http.BodyInfo.{
  RequestParser, ResponseParser, ResponseBodyFraming, ResponseBodyInfo, is_connect, is_head,
  determine_response_body, response_by_length,
}

-- The responses that never have a body.
abbrev pub HasNoBody : {F : Fields} → RequestParser F → ResponseParser F → Type 0
HasNoBody request response =
    (request.header.method ≡ "HEAD")
    ⊎ (((100 ≤ response.header.result) × (response.header.result < 200))
        ⊎ ((response.header.result ≡ 204) ⊎ (response.header.result ≡ 304)))

abbrev pub IsTunnel : {F : Fields} → RequestParser F → ResponseParser F → Type 0
IsTunnel request response =
    (request.header.method ≡ "CONNECT")
    × (200 ≤ response.header.result)
    × (response.header.result < 300)

-- The framing of the body, in the order in which the cases are to be tried.
pub data Framed {F : Fields} (request : RequestParser F) (response : ResponseParser F)
    : ResponseBodyInfo → Type 0 where
  no_body :
      (info : ResponseBodyInfo)
      → HasNoBody request response
      → info ≡ record { framing = ResponseBodyFraming.none; content_length = 0 }
      → Framed request response info
  tunnelled :
      (info : ResponseBodyInfo)
      → ¬ HasNoBody request response
      → IsTunnel request response
      → info ≡ record { framing = ResponseBodyFraming.tunnel; content_length = 0 }
      → Framed request response info
  by_chunks :
      (info : ResponseBodyInfo)
      → ¬ HasNoBody request response
      → ¬ IsTunnel request response
      → response.chunked ≡ true
      → info ≡ record { framing = ResponseBodyFraming.chunked; content_length = 0 }
      → Framed request response info
  by_length :
      (info : ResponseBodyInfo) (n : ℕ)
      → ¬ HasNoBody request response
      → ¬ IsTunnel request response
      → response.chunked ≡ false
      → response.content_length ≡ some n
      → info ≡ record { framing = ResponseBodyFraming.content_length; content_length = n }
      → Framed request response info
  until_close :
      (info : ResponseBodyInfo)
      → ¬ HasNoBody request response
      → ¬ IsTunnel request response
      → response.chunked ≡ false
      → response.content_length ≡ none
      → info ≡ record { framing = ResponseBodyFraming.close_delimited; content_length = 0 }
      → Framed request response info

-- The tests of the code, one after the other, as one.
has_no_body : {F : Fields} → RequestParser F → ResponseParser F → Bool
has_no_body request response =
    let status_code = response.header.result in
    is_head request.header
    || ((leb 100 status_code && ltb status_code 200) || (status_code == 204 || status_code == 304))

is_tunnel : {F : Fields} → RequestParser F → ResponseParser F → Bool
is_tunnel request response =
    is_connect request.header && (leb 200 response.header.result && ltb response.header.result 300)

module _ {F : Fields} (request : RequestParser F) (response : ResponseParser F) where
  has_no_body-HasNoBody : has_no_body request response ≡ true → HasNoBody request response
  unfolding has_no_body
  has_no_body-HasNoBody e = ground (arith, eq_iff request.header.method "HEAD")

  HasNoBody-has_no_body : has_no_body request response ≡ false → ¬ HasNoBody request response
  unfolding has_no_body
  HasNoBody-has_no_body e h = ground (arith, eq_iff request.header.method "HEAD")

  is_tunnel-IsTunnel : is_tunnel request response ≡ true → IsTunnel request response
  unfolding is_tunnel
  is_tunnel-IsTunnel e = ground (arith, eq_iff request.header.method "CONNECT")

  IsTunnel-is_tunnel : is_tunnel request response ≡ false → ¬ IsTunnel request response
  unfolding is_tunnel
  IsTunnel-is_tunnel e h = ground (arith, eq_iff request.header.method "CONNECT")

  by_length-Framed :
      (length : Option ℕ)
      → ¬ HasNoBody request response
      → ¬ IsTunnel request response
      → response.chunked ≡ false
      → response.content_length ≡ length
      → Framed request response (response_by_length length)
  unfolding response_by_length
  by_length-Framed (some n) h k c e = by_length _ n h k c e refl
  by_length-Framed none h k c e = until_close _ h k c e refl

  determine_by_tests : determine_response_body request response ≡ (
      if has_no_body request response
      then record { framing = ResponseBodyFraming.none; content_length = 0 }
      else if is_tunnel request response
      then record { framing = ResponseBodyFraming.tunnel; content_length = 0 }
      else if response.chunked
      then record { framing = ResponseBodyFraming.chunked; content_length = 0 }
      else response_by_length response.content_length)
  unfolding determine_response_body has_no_body is_tunnel
  determine_by_tests = ground arith

  -- The framing of a response is that of the first case that applies: no body for the answer to HEAD
  -- and for the status codes 1xx, 204 and 304; a tunnel for a success that answers CONNECT; chunks; a
  -- Content-Length; and otherwise all up to the close.
  pub determine_response_body-Framed :
      Framed request response (determine_response_body request response)
  determine_response_body-Framed =
      rw determine_by_tests (elim (Bool-cases (has_no_body request response)) [
        | inl none_here ↦ rw none_here (no_body _ (has_no_body-HasNoBody none_here) refl)
        | inr some_body ↦ rw some_body (
            let h = HasNoBody-has_no_body some_body in
            elim (Bool-cases (is_tunnel request response)) [
              | inl t ↦ rw t (tunnelled _ h (is_tunnel-IsTunnel t) refl)
              | inr t ↦ rw t (
                  let k = IsTunnel-is_tunnel t in
                  elim (Bool-cases response.chunked) [
                    | inl c ↦ simp c (by_chunks _ h k c refl)
                    | inr c ↦ simp c (by_length-Framed response.content_length h k c refl)
                  ])
            ])
      ])
