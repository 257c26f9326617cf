-- ===== src/Http/RemoteHeader.antt =====
-- The headers that the session writes: src/proxypp/http/http_proxy_session.cpp,
-- BuildRemoteRequestHeader, WriteRemoteRequestHeader and WriteRemoteResponseHeaderToClient, without
-- the writes themselves and without logging.
pub mod Laws
use proxypp.Prelude.{
  ℕ, zero, suc, ◌+◌, ◌-◌, ◌*◌, ◌/◌, ◌%◌, ◌^◌, ◌≤◌, ◌<◌, min, String, ◌≡◌, refl, sym, ap, subst, ◌∙◌,
  ◌≡⟨◌⟩◌, ◌∎, ◌≢◌, ◌↔◌, ◌⊎◌, inl, inr, Bool, true, false, not, ◌&&◌, ◌||◌, Option, none, some, List,
  [], ◌∷◌, ◌++◌, map, append-nil, append_assoc, arith, eq_iff, ltb, leb, ◌==◌, str_eq,
  if◌then◌else◌, ltb→lt, lt→ltb, ==_iff, Bool-cases, Option-cases, length, take, drop, All,
  length-append, take-append-drop, length-take, length-drop, take-length, drop-length, filter,
  contains,
}
use proxypp.Http.Fields.{Fields}
use proxypp.Http.Adapter.{RequestHeader, ResponseHeader}
use proxypp.Http.RemoteInfo.{RemoteInfo}

-- The enumerations of Boost.Beast. `known_method` says that a method is one of `verb`, other than
-- `unknown`; the method setter throws on `unknown`. `int_to_status` is the value of the `status`
-- that stands for a code: the code, or that of `unknown`, 0.
pub record Enumerations : Type 0 where
  pub known_method : String → Bool
  pub int_to_status : ℕ → ℕ

module _ (F : Fields) where
  -- for(const auto& field : header) … insert(field.name_string(), field.value())
  unfoldable pub insert_all : List (String × String) → F.Headers → F.Headers
  insert_all [] h = h
  insert_all ((name, value) ∷ rest) h = insert_all rest (F.insert name value h)

  -- for(const auto& field : fields_to_erase) … erase(field)
  unfoldable pub erase_all : List String → F.Headers → F.Headers
  erase_all [] h = h
  erase_all (name ∷ rest) h = erase_all rest (F.erase name h).0

  abbrev pub fields_to_erase : List String
  fields_to_erase = "Proxy-Connection" ∷ "Proxy-Authorization" ∷ "Proxy-Authenticate" ∷ []

  module _ (N : Enumerations) where
    -- BuildRemoteRequestHeader; `none` is the exception of the method setter.
    unfoldable pub build_remote_request_header :
        RequestHeader F → RemoteInfo → Option (RequestHeader F)
    build_remote_request_header client_request_header remote_info =
        if N.known_method client_request_header.method
        then some (record {
          method = client_request_header.method;
          target = remote_info.forward_target;
          version = client_request_header.version;
          fields =
              erase_all fields_to_erase
                (insert_all (F.to_list client_request_header.fields) F.empty);
        })
        else none

    -- The request that WriteRemoteRequestHeader serializes.
    unfoldable pub remote_request : RequestHeader F → Option (RequestHeader F)
    remote_request remote_request_header =
        if N.known_method remote_request_header.method
        then some (record {
          method = remote_request_header.method;
          target = remote_request_header.target;
          version = remote_request_header.version;
          fields = insert_all (F.to_list remote_request_header.fields) F.empty;
        })
        else none

    -- The response that WriteRemoteResponseHeaderToClient serializes.
    unfoldable pub client_response : ResponseHeader F → ResponseHeader F
    client_response remote_response_header = record {
      result = N.int_to_status remote_response_header.result;
      reason = remote_response_header.reason;
      version = remote_response_header.version;
      fields = insert_all (F.to_list remote_response_header.fields) F.empty;
    }
