-- ===== src/Script/Value/Convert/Owning.antt =====
-- The conversions of a value keep no reference, on every path.
use proxypp.Prelude.{◌+◌, Option, none, some, arith}
use proxypp.Error.{convert_value_failed}
use proxypp.Script.Quickjs.{Quickjs, QuickjsLaws}
use proxypp.Script.Ledger.{
  handing-Accounts, Accounts, recount-Accounts, bind-Accounts, fail-Accounts, pure-Accounts,
}
use proxypp.Script.Value.{Value, handle, invalid_value_error}
use proxypp.Script.Value.Owning.{
  text_weight, to_cstring-Accounts, free_cstring-Accounts, pending_error-Accounts,
}
use proxypp.Script.Value.Convert.{
  converted, to_bool_of, to_bool, to_int32_of, to_int32, copied, to_string_of, to_string,
}

module _ {Q : Quickjs} (L : QuickjsLaws Q) where
  converted-Accounts :
      {A : Type 0} (c : Q.JsContext) (result : Option A)
      → Accounts L.counters (converted Q c result) 0 (λ _. 0)
  unfolding converted
  converted-Accounts c none = pending_error-Accounts L convert_value_failed c
  converted-Accounts c (some a) = pure-Accounts L.counters a

  to_bool_of-Accounts :
      (o : Option (Q.JsContext × Q.JsValue)) → Accounts L.counters (to_bool_of Q o) 0 (λ _. 0)
  unfolding to_bool_of
  to_bool_of-Accounts none = fail-Accounts L.counters (invalid_value_error Q "value is invalid")
  to_bool_of-Accounts (some (c, v)) =
      bind-Accounts L.counters _ (handing-Accounts L.counters 0 (λ h. (L.value-to_bool c v h)))
        (converted-Accounts c)

  pub to_bool-Accounts : (value : Value Q) → Accounts L.counters (to_bool Q value) 0 (λ _. 0)
  unfolding to_bool
  to_bool-Accounts value = to_bool_of-Accounts (handle Q value)

  to_int32_of-Accounts :
      (o : Option (Q.JsContext × Q.JsValue)) → Accounts L.counters (to_int32_of Q o) 0 (λ _. 0)
  unfolding to_int32_of
  to_int32_of-Accounts none = fail-Accounts L.counters (invalid_value_error Q "value is invalid")
  to_int32_of-Accounts (some (c, v)) =
      bind-Accounts L.counters _ (handing-Accounts L.counters 0 (λ h. (L.value-to_int32 c v h)))
        (converted-Accounts c)

  pub to_int32-Accounts : (value : Value Q) → Accounts L.counters (to_int32 Q value) 0 (λ _. 0)
  unfolding to_int32
  to_int32-Accounts value = to_int32_of-Accounts (handle Q value)

  copied-Accounts :
      (c : Q.JsContext) (text : Option Q.Cstring)
      → Accounts L.counters (copied Q c text) (text_weight L text + 0) (λ _. 0)
  unfolding copied
  copied-Accounts c none =
      recount-Accounts L.counters (pending_error-Accounts L convert_value_failed c) (omega arith)
  copied-Accounts c (some text) =
      bind-Accounts L.counters _ (free_cstring-Accounts L c text 0)
        λ _. pure-Accounts L.counters (Q.cstring_text text)

  to_string_of-Accounts :
      (o : Option (Q.JsContext × Q.JsValue)) → Accounts L.counters (to_string_of Q o) 0 (λ _. 0)
  unfolding to_string_of
  to_string_of-Accounts none = fail-Accounts L.counters (invalid_value_error Q "value is invalid")
  to_string_of-Accounts (some (c, v)) =
      bind-Accounts L.counters _ (to_cstring-Accounts L c v 0) (copied-Accounts c)

  pub to_string-Accounts : (value : Value Q) → Accounts L.counters (to_string Q value) 0 (λ _. 0)
  unfolding to_string
  to_string-Accounts value = to_string_of-Accounts (handle Q value)
