-- ===== src/Script/Value/Property.antt =====
-- The properties and elements of a value: Value::GetProperty, SetProperty, SetElement, GetElement and
-- ArrayLength of src/proxypp/script/qjs/value.cpp. A value that is passed to a setter is moved into
-- it: what is left of it is destroyed when the setter returns.
use proxypp.Prelude.{ℕ, String, Bool, true, false, not, Option, none, some, if◌then◌else◌}
use proxypp.Prelude.Int.{to_uint32}
use proxypp.Error.{
  qjs, QjsErrc, get_property_failed, set_property_failed, get_element_failed, set_element_failed,
  js_internal_error, make_error, R, pure, fail, ◌>>=◌, call, finally,
}
use proxypp.Script.Quickjs.{Quickjs}
use proxypp.Script.Value.{
  Value, destroy, handle, is_number, invalid_value_error, context_mismatch_error, adopt_checked,
  pending_error,
}
use proxypp.Script.Value.Convert.{to_int32}

module _ (Q : Quickjs) where
  unfoldable pub get_property_of : String → Option (Q.JsContext × Q.JsValue) → R Q.Heap (Value Q)
  get_property_of name none = fail (invalid_value_error Q "target is invalid")
  get_property_of name (some (c, v)) = do
    property_val ← call (Q.get_property_str c v name)
    adopt_checked Q get_property_failed c property_val

  unfoldable pub get_property : String → Value Q → R Q.Heap (Value Q)
  unfolding get_property_of
  get_property name target = get_property_of name (handle Q target)

  -- The result of a C setter.
  unfoldable pub set_result : QjsErrc → Q.JsContext → Bool → R Q.Heap (Unit {0})
  set_result code c true = pure tt
  set_result code c false = pending_error Q code c

  -- The last tests and the call of a setter: the value is released only where both are passed.
  unfoldable pub set_checked :
      QjsErrc
      → (Q.JsContext → Q.JsValue → Q.JsValue → Q.Heap → Bool × Q.Heap)
      → String
      → Q.JsContext × Q.JsValue
      → Value Q
      → Option (Q.JsContext × Q.JsValue)
      → R Q.Heap (Unit {0})
  set_checked code set invalid (c, v) value none =
      finally (destroy Q value) (fail (invalid_value_error Q invalid))
  set_checked code set invalid (c, v) value (some (d, u)) =
      if not (Q.same_context c d)
      then finally (destroy Q value) (fail (context_mismatch_error Q))
      else (do result ← call (set c v u); set_result code c result)

  -- A setter on a valid target, which has to pass a test of its own.
  unfoldable pub set_tested :
      QjsErrc
      → (Q.JsContext → Q.JsValue → Q.JsValue → Q.Heap → Bool × Q.Heap)
      → (Q.JsValue → Bool)
      → String
      → String
      → Value Q
      → Option (Q.JsContext × Q.JsValue)
      → R Q.Heap (Unit {0})
  set_tested code set p no_target invalid value none =
      finally (destroy Q value) (fail (invalid_value_error Q "target is invalid"))
  set_tested code set p no_target invalid value (some (c, v)) =
      if not (p v)
      then finally (destroy Q value) (fail (invalid_value_error Q no_target))
      else set_checked code set invalid (c, v) value (handle Q value)

  unfoldable pub set_property : String → Value Q → Value Q → R Q.Heap (Unit {0})
  unfolding set_tested set_checked set_result
  set_property name value target =
      set_tested set_property_failed (λ c v u. Q.set_property_str c v name u) Q.is_object
        "target is not an object" "property value is invalid" value (handle Q target)

  unfoldable pub set_element : ℕ → Value Q → Value Q → R Q.Heap (Unit {0})
  unfolding set_tested set_checked set_result
  set_element index value target =
      set_tested set_element_failed (λ c v u. Q.set_property_uint32 c v index u) Q.is_array
        "target is not an array" "value to set is invalid" value (handle Q target)

  unfoldable pub get_element_of : ℕ → Option (Q.JsContext × Q.JsValue) → R Q.Heap (Value Q)
  get_element_of index none = fail (invalid_value_error Q "target is invalid")
  get_element_of index (some (c, v)) =
      if not (Q.is_array v) then fail (invalid_value_error Q "target is not an array") else (do
        js_value ← call (Q.get_property_uint32 c v index)
        adopt_checked Q get_element_failed c js_value)

  unfoldable pub get_element : ℕ → Value Q → R Q.Heap (Value Q)
  unfolding get_element_of
  get_element index target = get_element_of index (handle Q target)

  -- ArrayLength, from the adopted value of the property on; it is destroyed at the end.
  unfoldable pub length_of_number : Value Q → R Q.Heap ℕ
  length_of_number adopted_value =
      if not (is_number Q adopted_value)
      then fail (make_error (qjs js_internal_error) "array length is not a number")
      else (do length_result ← to_int32 Q adopted_value; pure (to_uint32 length_result))

  unfoldable pub array_length_of : Option (Q.JsContext × Q.JsValue) → R Q.Heap ℕ
  array_length_of none = fail (invalid_value_error Q "target is invalid")
  array_length_of (some (c, v)) =
      if not (Q.is_array v) then fail (invalid_value_error Q "target is not an array") else (do
        js_value ← call (Q.get_property_str c v "length")
        adopted_value ← adopt_checked Q get_property_failed c js_value
        finally (destroy Q adopted_value) (length_of_number adopted_value))

  unfoldable pub array_length : Value Q → R Q.Heap ℕ
  unfolding array_length_of length_of_number
  array_length target = array_length_of (handle Q target)
