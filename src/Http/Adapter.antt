-- ===== src/Http/Adapter.antt =====
-- The adapters over Boost.Beast headers: src/proxypp/http/adapter/beast_request_adapter.cpp and
-- beast_response_adapter.cpp. Logging is left out.
pub mod Laws
use proxypp.Prelude.{
  ℕ, zero, suc, ◌+◌, ◌-◌, ◌*◌, ◌/◌, ◌%◌, ◌^◌, ◌≤◌, ◌<◌, min, String, ◌≡◌, refl, sym, ap, subst, ◌∙◌,
  ◌≡⟨◌⟩◌, ◌∎, ◌≢◌, ◌↔◌, ◌⊎◌, inl, inr, Bool, true, false, not, ◌&&◌, ◌||◌, Option, none, some, List,
  [], ◌∷◌, ◌++◌, map, append-nil, append_assoc, arith, eq_iff, ltb, leb, ◌==◌, str_eq,
  if◌then◌else◌, ltb→lt, lt→ltb, ==_iff, Bool-cases, Option-cases, length, take, drop, All,
  length-append, take-append-drop, length-take, length-drop, take-length, drop-length, filter,
  contains,
}
use proxypp.Http.Fields.{Fields, values}
use proxypp.Rule.Adapter.{Adapter, RequestReader, ResponseReader}

-- http::request_header<>
pub record RequestHeader (F : Fields) : Type 0 where
  pub method : String
  pub target : String
  pub version : ℕ
  pub fields : F.Headers

-- http::response_header<>
pub record ResponseHeader (F : Fields) : Type 0 where
  pub result : ℕ
  pub reason : String
  pub version : ℕ
  pub fields : F.Headers

module _ (F : Fields) where
  -- The header operations on the fields that both adapters share.
  pub get_header : String → F.Headers → Option String
  get_header name h = F.find name h

  pub set_header : String → String → F.Headers → F.Headers
  set_header name value h = F.set name value h

  pub add_header : String → String → F.Headers → F.Headers
  add_header name value h = if F.contains name h then h else F.set name value h

  pub replace_header : String → String → F.Headers → F.Headers
  replace_header name value h = if F.contains name h then F.set name value h else h

  pub remove_header : String → F.Headers → F.Headers
  remove_header name h = (F.erase name h).0

  pub get_all_headers : F.Headers → List (String × String)
  get_all_headers h = F.to_list h

  -- BeastRequestAdapter
  unfoldable pub request_adapter : Adapter (RequestHeader F)
  unfolding get_header set_header add_header replace_header remove_header get_all_headers
  request_adapter = record {
    get_header = λ name r. get_header name r.fields;
    get_all_headers = λ r. get_all_headers r.fields;
    set_header = λ name value r. record r { fields = set_header name value r.fields };
    add_header = λ name value r. record r { fields = add_header name value r.fields };
    replace_header = λ name value r. record r { fields = replace_header name value r.fields };
    remove_header = λ name r. record r { fields = remove_header name r.fields };
  }

  -- BeastResponseAdapter
  unfoldable pub response_adapter : Adapter (ResponseHeader F)
  unfolding get_header set_header add_header replace_header remove_header get_all_headers
  response_adapter = record {
    get_header = λ name r. get_header name r.fields;
    get_all_headers = λ r. get_all_headers r.fields;
    set_header = λ name value r. record r { fields = set_header name value r.fields };
    add_header = λ name value r. record r { fields = add_header name value r.fields };
    replace_header = λ name value r. record r { fields = replace_header name value r.fields };
    remove_header = λ name r. record r { fields = remove_header name r.fields };
  }

  -- The values of a header of a message.
  abbrev pub request_values : String → RequestHeader F → List String
  request_values name r = values F name r.fields

  abbrev pub response_values : String → ResponseHeader F → List String
  response_values name r = values F name r.fields

  -- Method, Target and Version of BeastRequestAdapter.
  unfoldable pub request_reader : RequestReader (RequestHeader F)
  request_reader = record {
    method = λ r. r.method;
    target = λ r. r.target;
    version = λ r. r.version;
  }

  -- Status, Reason and Version of BeastResponseAdapter.
  unfoldable pub response_reader : ResponseReader (ResponseHeader F)
  response_reader = record {
    status = λ r. r.result;
    reason = λ r. r.reason;
    version = λ r. r.version;
  }
