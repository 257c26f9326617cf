-- ===== src/Script/Value/Convert.antt =====
-- The conversions of a value to C++: Value::ToBool, ToInt32 and ToString of
-- src/proxypp/script/qjs/value.cpp.
pub mod Owning
use proxypp.Prelude.{String, Bool, Option, none, some}
use proxypp.Prelude.Int.{ℤ}
use proxypp.Error.{convert_value_failed, R, pure, fail, ◌>>=◌, ◌>>◌, call, act}
use proxypp.Script.Quickjs.{Quickjs}
use proxypp.Script.Value.{Value, handle, invalid_value_error, pending_error}

module _ (Q : Quickjs) where
  -- The result of a C function, or the pending exception for a result below 0 or a null pointer.
  unfoldable pub converted : {A : Type 0} → Q.JsContext → Option A → R Q.Heap A
  converted c none = pending_error Q convert_value_failed c
  converted c (some a) = pure a

  unfoldable pub to_bool_of : Option (Q.JsContext × Q.JsValue) → R Q.Heap Bool
  to_bool_of none = fail (invalid_value_error Q "value is invalid")
  to_bool_of (some (c, v)) = do result ← call (Q.to_bool c v); converted c result

  unfoldable pub to_bool : Value Q → R Q.Heap Bool
  unfolding to_bool_of converted
  to_bool value = to_bool_of (handle Q value)

  unfoldable pub to_int32_of : Option (Q.JsContext × Q.JsValue) → R Q.Heap ℤ
  to_int32_of none = fail (invalid_value_error Q "value is invalid")
  to_int32_of (some (c, v)) = do result ← call (Q.to_int32 c v); converted c result

  unfoldable pub to_int32 : Value Q → R Q.Heap ℤ
  unfolding to_int32_of converted
  to_int32 value = to_int32_of (handle Q value)

  -- The text is copied before it is freed.
  unfoldable pub copied : Q.JsContext → Option Q.Cstring → R Q.Heap String
  copied c none = pending_error Q convert_value_failed c
  copied c (some text) = do act (Q.free_cstring c text); pure (Q.cstring_text text)

  unfoldable pub to_string_of : Option (Q.JsContext × Q.JsValue) → R Q.Heap String
  to_string_of none = fail (invalid_value_error Q "value is invalid")
  to_string_of (some (c, v)) = do text ← call (Q.to_cstring c v); copied c text

  unfoldable pub to_string : Value Q → R Q.Heap String
  unfolding to_string_of copied
  to_string value = to_string_of (handle Q value)
