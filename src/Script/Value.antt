-- ===== src/Script/Value.antt =====
-- The wrapper of a JavaScript value: src/proxypp/script/qjs/value.{h,cpp}, with detail/
-- exception_message.cpp. A std::unique_ptr that is empty is `none`; destructors are called where a
-- scope ends. Logging is left out.
pub mod Convert
pub mod Property
pub mod Owning
pub mod Making
pub mod Access
pub mod Length
pub mod Outcome
use proxypp.Prelude.{
  ℕ, zero, suc, ◌+◌, ◌-◌, ◌*◌, ◌/◌, ◌%◌, ◌^◌, ◌≤◌, ◌<◌, min, String, ◌≡◌, refl, sym, ap, subst, ◌∙◌,
  ◌≡⟨◌⟩◌, ◌∎, ◌≢◌, ◌↔◌, ◌⊎◌, inl, inr, Bool, true, false, not, ◌&&◌, ◌||◌, Option, none, some, List,
  [], ◌∷◌, ◌++◌, map, append-nil, append_assoc, arith, eq_iff, ltb, leb, ◌==◌, str_eq,
  if◌then◌else◌, ltb→lt, lt→ltb, ==_iff, Bool-cases, Option-cases, length, take, drop, All,
  length-append, take-append-drop, length-take, length-drop, take-length, drop-length, filter,
  contains,
}
use proxypp.Prelude.Int.{ℤ}
use proxypp.Error.{
  Code, qjs, common, internal_error, QjsErrc, invalid_context, invalid_value, context_mismatch,
  js_internal_error, Error, make_error, Result, ok, err, R, pure, fail, bind, ◌>>=◌, ◌>>◌, call,
  act,
}
use proxypp.Script.Quickjs.{Quickjs}

-- Value::Impl
pub record Impl (Q : Quickjs) : Type 0 where
  pub context : Option Q.JsContext
  pub value : Q.JsValue
  pub owns_value : Bool

abbrev pub Value : Quickjs → Type 0
Value Q = Option (Impl Q)

-- qjs::Context, around a JSContext* that may be null.
pub record Context (Q : Quickjs) : Type 0 where
  pub native_handle : Option Q.JsContext

module _ (Q : Quickjs) where
  abbrev free_owned : Bool → Option Q.JsContext → Q.JsValue → Q.Heap → Q.Heap
  free_owned true (some c) v h = Q.free_value c v h
  free_owned _ _ v h = h

  -- ~Value: ~Impl frees a value that is owned.
  unfoldable pub destroy : Value Q → Q.Heap → Q.Heap
  destroy none h = h
  destroy (some impl) h = free_owned impl.owns_value impl.context impl.value h

  abbrev owned : Bool → Option Q.JsContext → Q.JsValue → Option (Q.JsContext × Q.JsValue)
  owned true (some c) v = some (c, v)
  owned _ _ v = none

  -- The context and the value of a wrapper for which IsValid() holds.
  abbrev pub handle : Value Q → Option (Q.JsContext × Q.JsValue)
  handle none = none
  handle (some impl) = owned impl.owns_value impl.context impl.value

  abbrev test : (Q.JsValue → Bool) → Option (Q.JsContext × Q.JsValue) → Bool
  test p none = false
  test p (some (c, v)) = p v

  -- Value::IsValid, IsException, IsUndefined, IsNull, IsNumber, IsBool, IsString, IsObject and
  -- IsArray.
  unfoldable pub is_valid : Value Q → Bool
  is_valid value = test (λ v. true) (handle value)

  unfoldable pub is_exception : Value Q → Bool
  is_exception value = test Q.is_exception (handle value)

  unfoldable pub is_undefined : Value Q → Bool
  is_undefined value = test Q.is_undefined (handle value)

  unfoldable pub is_null : Value Q → Bool
  is_null value = test Q.is_null (handle value)

  unfoldable pub is_number : Value Q → Bool
  is_number value = test Q.is_number (handle value)

  unfoldable pub is_bool : Value Q → Bool
  is_bool value = test Q.is_bool (handle value)

  unfoldable pub is_string : Value Q → Bool
  is_string value = test Q.is_string (handle value)

  unfoldable pub is_object : Value Q → Bool
  is_object value = test Q.is_object (handle value)

  unfoldable pub is_array : Value Q → Bool
  is_array value = test Q.is_array (handle value)

  -- HandleInvalidValue and HandleContextMismatch
  unfoldable pub invalid_value_error : String → Error
  invalid_value_error reason = make_error (qjs invalid_value) reason

  unfoldable pub context_mismatch_error : Error
  context_mismatch_error = make_error (qjs context_mismatch) ""

  -- ValueAccess::Adopt
  unfoldable pub adopt : Q.JsContext → Q.JsValue → R Q.Heap (Value Q)
  adopt c v h =
      if Q.can_allocate h
      then (ok (some (record { context = some c; value = v; owns_value = true })), h)
      else (err (make_error (common internal_error) "failed to adopt JS value"), Q.free_value c v h)

  exception_text : Q.JsContext → Q.JsValue → Option Q.Cstring → R Q.Heap String
  exception_text c exception none = do
    convert_exception ← call (Q.get_exception c)
    act (Q.free_value c convert_exception)
    act (Q.free_value c exception)
    pure "<failed to convert QuickJS exception to string>"
  exception_text c exception (some c_str) = do
    act (Q.free_cstring c c_str)
    act (Q.free_value c exception)
    pure (Q.cstring_text c_str)

  convert_exception_text : Q.JsContext → Q.JsValue → R Q.Heap String
  convert_exception_text c exception = do
    c_str ← call (Q.to_cstring c exception)
    exception_text c exception c_str

  no_exception_text : Q.JsContext → Q.JsValue → R Q.Heap String
  no_exception_text c exception = do
    act (Q.free_value c exception)
    pure "<unknown QuickJS exception>"

  message_of : Q.JsContext → Q.JsValue → R Q.Heap String
  message_of c exception =
      if Q.is_null exception || Q.is_undefined exception
      then no_exception_text c exception
      else convert_exception_text c exception

  -- detail::GetExceptionMessage
  unfoldable pub get_exception_message : Q.JsContext → R Q.Heap String
  unfolding message_of no_exception_text convert_exception_text exception_text
  get_exception_message c = do exception ← call (Q.get_exception c); message_of c exception

  -- The pending exception as an error with this code.
  unfoldable pub pending_error : {A : Type 0} → QjsErrc → Q.JsContext → R Q.Heap A
  pending_error code c = do message ← get_exception_message c; fail (make_error (qjs code) message)

  -- A value that a C function has returned: adopted, or, if it is an exception, freed and reported.
  unfoldable pub adopt_checked : QjsErrc → Q.JsContext → Q.JsValue → R Q.Heap (Value Q)
  adopt_checked code c v =
      if Q.is_exception v
      then (do
        message ← get_exception_message c
        act (Q.free_value c v)
        fail (make_error (qjs code) message))
      else adopt c v

  -- if(qjs_ctx == nullptr) return Unexpected(Error { Errc::InvalidContext })
  abbrev pub with_handle :
      {A : Type 0} → Option Q.JsContext → (Q.JsContext → R Q.Heap A) → R Q.Heap A
  with_handle none f = fail (make_error (qjs invalid_context) "")
  with_handle (some c) f = f c

  abbrev pub in_context : {A : Type 0} → Context Q → (Q.JsContext → R Q.Heap A) → R Q.Heap A
  in_context context f = with_handle context.native_handle f

  -- Value::GlobalObject, Undefined, Null, Bool, Int32, String, Object and Array.
  unfoldable pub global_object : Context Q → R Q.Heap (Value Q)
  global_object context =
      in_context context
        λ c. do v ← call (Q.get_global_object c); adopt_checked js_internal_error c v

  unfoldable pub undefined : Context Q → R Q.Heap (Value Q)
  undefined context = in_context context λ c. adopt c Q.undefined

  unfoldable pub null : Context Q → R Q.Heap (Value Q)
  null context = in_context context λ c. adopt c Q.null

  unfoldable pub bool : Context Q → Bool → R Q.Heap (Value Q)
  bool context b = in_context context λ c. adopt c (Q.new_bool c b)

  unfoldable pub int32 : Context Q → ℤ → R Q.Heap (Value Q)
  int32 context n = in_context context λ c. adopt c (Q.new_int32 c n)

  unfoldable pub string : Context Q → String → R Q.Heap (Value Q)
  string context text =
      in_context context λ c. do v ← call (Q.new_string c text); adopt_checked js_internal_error c v

  unfoldable pub object : Context Q → R Q.Heap (Value Q)
  object context =
      in_context context λ c. do v ← call (Q.new_object c); adopt_checked js_internal_error c v

  unfoldable pub array : Context Q → R Q.Heap (Value Q)
  array context =
      in_context context λ c. do v ← call (Q.new_array c); adopt_checked js_internal_error c v
