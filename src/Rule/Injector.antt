-- ===== src/Rule/Injector.antt =====
-- What match expressions see of a message: src/proxypp/rule/http/context_injector.{h,cpp}. A local
-- value is destroyed where a function is left early with an error.
pub mod Owning
pub mod Headers
use proxypp.Prelude.{
  ℕ, zero, suc, ◌+◌, ◌-◌, ◌*◌, ◌/◌, ◌%◌, ◌^◌, ◌≤◌, ◌<◌, min, String, ◌≡◌, refl, sym, ap, subst, ◌∙◌,
  ◌≡⟨◌⟩◌, ◌∎, ◌≢◌, ◌↔◌, ◌⊎◌, inl, inr, Bool, true, false, not, ◌&&◌, ◌||◌, Option, none, some, List,
  [], ◌∷◌, ◌++◌, map, append-nil, append_assoc, arith, eq_iff, ltb, leb, ◌==◌, ◌+++◌, str_eq,
  if◌then◌else◌, ltb→lt, lt→ltb, ==_iff, Bool-cases, Option-cases, length, take, drop, All,
  length-append, take-append-drop, length-take, length-drop, take-length, drop-length, filter,
  contains,
}
use proxypp.Prelude.Int.{ℤ, wrap_int32}
use proxypp.Error.{
  rule, create_runtime_failed, create_context_failed, execute_script_failed,
  rule_context_preparation_failed, rule_engine_initialization_failed, match_evaluation_failed,
  match_result_not_boolean, on_error, map_error, Code, qjs, QjsErrc, invalid_context,
  js_internal_error, convert_value_failed, get_property_failed, set_property_failed,
  get_element_failed, set_element_failed, finally, Error, make_error, Result, ok, err, R, pure,
  fail, bind, ◌>>=◌, ◌>>◌, call, act,
}
use proxypp.Script.Quickjs.{Quickjs}
use proxypp.Script.Value.{Value, Context, destroy}
use proxypp.Script.ObjectBuilder.{
  ObjectBuilder, Setter, create, build, set_string, set_int32, set_object,
}
use proxypp.Rule.Adapter.{Adapter, RequestReader, ResponseReader}
use proxypp.Rule.MatchContext.{MatchContext, add_object}

module _ (Q : Quickjs) (to_lower : String → String) where
  -- The loop over the headers.
  unfoldable pub set_headers : List (String × String) → Setter Q
  set_headers [] b h = (b, h)
  set_headers ((name, value) ∷ headers) b h =
      let step = set_string Q (to_lower name) value b h in set_headers headers step.0 step.1

  -- BuildHeaderObject
  unfoldable pub build_header_object : List (String × String) → Context Q → R Q.Heap (Value Q)
  build_header_object headers context = do
    empty ← create Q context
    filled ← call (set_headers headers empty)
    build Q filled

  module _ {A : Type 0} (ops : Adapter A) (reader : RequestReader A) where
    -- BuildRequestObject
    unfoldable pub build_request_object : A → Context Q → R Q.Heap (Value Q)
    build_request_object request context = do
      header_object ← build_header_object (ops.get_all_headers request) context
      empty ← on_error (destroy Q header_object) (create Q context)
      with_method ← call (set_string Q "method" (reader.method request) empty)
      with_target ← call (set_string Q "target" (reader.target request) with_method)
      with_version ← call (set_int32 Q "version" (wrap_int32 (reader.version request)) with_target)
      with_headers ← call (set_object Q "headers" header_object with_version)
      build Q with_headers

    -- InjectRequestContext
    unfoldable pub inject_request_context : MatchContext Q → A → R Q.Heap (Unit {0})
    inject_request_context context request = do
      request_obj ← build_request_object request context.script_context
      empty ← on_error (destroy Q request_obj) (create Q context.script_context)
      with_phase ← call (set_string Q "phase" "request" empty)
      with_request ← call (set_object Q "request" request_obj with_phase)
      ctx_obj ← build Q with_request
      add_object Q "ctx" ctx_obj context

  module _ {B : Type 0} (ops : Adapter B) (reader : ResponseReader B) where
    -- BuildResponseObject
    unfoldable pub build_response_object : B → Context Q → R Q.Heap (Value Q)
    build_response_object response context = do
      header_object ← build_header_object (ops.get_all_headers response) context
      empty ← on_error (destroy Q header_object) (create Q context)
      with_status ← call (set_int32 Q "status" (wrap_int32 (reader.status response)) empty)
      with_reason ← call (set_string Q "reason" (reader.reason response) with_status)
      with_version ← call (set_int32 Q "version" (wrap_int32 (reader.version response)) with_reason)
      with_headers ← call (set_object Q "headers" header_object with_version)
      build Q with_headers

    -- InjectResponseContext
    unfoldable pub inject_response_context :
        {A : Type 0} → Adapter A → RequestReader A → A → MatchContext Q → B → R Q.Heap (Unit {0})
    inject_response_context request_ops request_reader request context response = do
      request_obj ← build_request_object request_ops request_reader request context.script_context
      response_obj ←
          on_error (destroy Q request_obj) (build_response_object response context.script_context)
      empty ←
          on_error (destroy Q request_obj)
            (on_error (destroy Q response_obj) (create Q context.script_context))
      with_phase ← call (set_string Q "phase" "response" empty)
      with_request ← call (set_object Q "request" request_obj with_phase)
      with_response ← call (set_object Q "response" response_obj with_request)
      ctx_obj ← build Q with_response
      add_object Q "ctx" ctx_obj context
