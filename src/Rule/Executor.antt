-- ===== src/Rule/Executor.antt =====
-- The execution of one action on the header of a message: src/proxypp/rule/http/
-- action_executor.cpp. Logging is left out.
pub mod Laws
use proxypp.Prelude.{
  ℕ, zero, suc, ◌+◌, ◌-◌, ◌*◌, ◌/◌, ◌%◌, ◌^◌, ◌≤◌, ◌<◌, min, String, ◌≡◌, refl, sym, ap, subst, ◌∙◌,
  ◌≡⟨◌⟩◌, ◌∎, ◌≢◌, ◌↔◌, ◌⊎◌, inl, inr, Bool, true, false, not, ◌&&◌, ◌||◌, Option, none, some, List,
  [], ◌∷◌, ◌++◌, map, append-nil, append_assoc, arith, eq_iff, ltb, leb, ◌==◌, str_eq,
  if◌then◌else◌, ltb→lt, lt→ltb, ==_iff, Bool-cases, Option-cases, length, take, drop, All,
  length-append, take-append-drop, length-take, length-drop, take-length, drop-length, filter,
  contains,
}
use Prim.Native.String
use proxypp.Error.{Error, Code, invalid_action, make_error, Result, ok, err, R, pure, fail}
use proxypp.Rule.Model.{Op, Target, ActionData, header_name, header_name_value, Action}
use proxypp.Rule.Adapter.{Adapter}

-- kUnsupportedHeaders
abbrev pub unsupported_headers : List String
unsupported_headers =
    "content-length" ∷ "transfer-encoding" ∷ "te" ∷ "trailer" ∷ "connection" ∷ "keep-alive"
    ∷ "proxy-connection" ∷ "upgrade" ∷ "host" ∷ "proxy-authorization" ∷ "proxy-authenticate"
    ∷ "content-encoding" ∷ "content-range" ∷ "range" ∷ "if-range" ∷ "accept-ranges" ∷ "expect"
    ∷ "authorization" ∷ "www-authenticate" ∷ "authentication-info" ∷ "proxy-authentication-info"
    ∷ "via" ∷ "x-forwarded-for" ∷ "x-forwarded-host" ∷ "x-forwarded-proto" ∷ "x-real-ip" ∷ []

-- Unexpected(Error { Errc::InvalidAction, … })
pub invalid : String → Error
invalid message = make_error (Code.rule invalid_action) message

-- Both alternatives of the data have a name.
abbrev pub data_name : ActionData → String
data_name (header_name name) = name
data_name (header_name_value name value) = name

abbrev pub is_header : Target → Bool
is_header Target.header = true
is_header Target.not_set = false

-- kUnsupportedHeaders.contains(to_lower_copy(name)), where `to_lower` is
-- boost::algorithm::to_lower_copy.
abbrev pub is_unsupported : (String → String) → String → Bool
is_unsupported to_lower name = contains unsupported_headers (to_lower name)

abbrev unsupported_message : String → String
unsupported_message name = String.◌++◌ (String.◌++◌ "modifying header '" name) "' is not supported"

module _ {A : Type 0} (ops : Adapter A) where
  -- The operations, each with the alternative of the data that it requires.
  pub execute_op : Op → ActionData → R A (Unit {0})
  execute_op Op.add (header_name_value name value) a = (ok tt, ops.add_header name value a)
  execute_op Op.add (header_name name) a =
      fail (invalid "add header requires HeaderNameValueData") a
  execute_op Op.set (header_name_value name value) a = (ok tt, ops.set_header name value a)
  execute_op Op.set (header_name name) a =
      fail (invalid "set header requires HeaderNameValueData") a
  execute_op Op.replace (header_name_value name value) a = (ok tt, ops.replace_header name value a)
  execute_op Op.replace (header_name name) a =
      fail (invalid "replace header requires HeaderNameValueData") a
  execute_op Op.remove (header_name name) a = (ok tt, ops.remove_header name a)
  execute_op Op.remove (header_name_value name value) a =
      fail (invalid "remove header requires HeaderNameData") a
  execute_op Op.not_set d a = fail (invalid "invalid operation") a

  -- ExecuteRequestAction, and ExecuteResponseAction, which has the same text.
  pub execute_action : (String → String) → Action → R A (Unit {0})
  execute_action to_lower action a =
      if not (is_header action.target)
      then fail (invalid "invalid target") a
      else if is_unsupported to_lower (data_name action.action_data)
      then fail (invalid (unsupported_message (data_name action.action_data))) a
      else execute_op action.op action.action_data a

-- ExecuteRequestAction
abbrev pub execute_request_action :
    {A : Type 0} → Adapter A → (String → String) → Action → R A (Unit {0})
execute_request_action = execute_action

-- ExecuteResponseAction
abbrev pub execute_response_action :
    {A : Type 0} → Adapter A → (String → String) → Action → R A (Unit {0})
execute_response_action = execute_action
