-- ===== src/Script/Value/Making.antt =====
-- What the factories of src/proxypp/script/qjs/value.cpp own, on every path.
use proxypp.Prelude.{ℕ, String, ◌≡◌, Bool, Option, none, some, arith}
use proxypp.Prelude.Int.{ℤ}
use proxypp.Error.{qjs, invalid_context, js_internal_error, make_error, R, ◌>>=◌, call}
use proxypp.Script.Quickjs.{Quickjs, QuickjsLaws, Ledger}
use proxypp.Script.Ledger.{Accounts, recount-Accounts, bind-Accounts, call-Accounts, fail-Accounts}
use proxypp.Script.Value.{
  with_handle, adopt_checked, Context, in_context, adopt, global_object, undefined, null, bool,
  int32, string, object, array,
}
use proxypp.Script.Value.Owning.{owned_weight, adopt-Accounts, adopt_checked-Accounts}

module _ {Q : Quickjs} (L : QuickjsLaws Q) where
  pub in_context-Accounts :
      {A : Type 0} (context : Context Q) (f : Q.JsContext → R Q.Heap A) {g : A → ℕ}
      → ((c : Q.JsContext) → Accounts L.counters (f c) 0 g)
      → Accounts L.counters (in_context Q context f) 0 g
  in_context-Accounts {A} context f {g} p = go context.native_handle
    where
      go : (o : Option Q.JsContext) → Accounts L.counters (with_handle Q o f) 0 g
      go none = fail-Accounts L.counters (make_error (qjs invalid_context) "")
      go (some c) = p c

  immediate-Accounts :
      (v : Q.JsContext → Q.JsValue) (context : Context Q)
      → ((c : Q.JsContext) → L.weight (v c) ≡ 0)
      → Accounts L.counters (in_context Q context (λ c. adopt Q c (v c))) 0 (owned_weight L)
  immediate-Accounts v context p =
      in_context-Accounts context _
        (λ c. recount-Accounts L.counters (adopt-Accounts L c (v c)) (p c))

  created-Accounts :
      (create : Q.JsContext → Q.Heap → Q.JsValue × Q.Heap) (context : Context Q)
      → ((c : Q.JsContext) (h : Q.Heap)
          → Ledger L.counters h (create c h).1 0 (L.weight (create c h).0))
      → Accounts L.counters
          (in_context Q context λ c. do v ← call (create c); adopt_checked Q js_internal_error c v)
          0
          (owned_weight L)
  created-Accounts create context p = in_context-Accounts context _ λ c.
      bind-Accounts L.counters _ (call-Accounts L.counters L.weight 0 (λ h. (p c h))) (λ v.
        recount-Accounts L.counters (adopt_checked-Accounts L js_internal_error c v) (omega arith))

  pub undefined-Accounts :
      (context : Context Q) → Accounts L.counters (undefined Q context) 0 (owned_weight L)
  unfolding undefined
  undefined-Accounts context = immediate-Accounts _ context (λ c. L.weight-undefined)

  pub null-Accounts :
      (context : Context Q) → Accounts L.counters (null Q context) 0 (owned_weight L)
  unfolding null
  null-Accounts context = immediate-Accounts _ context (λ c. L.weight-null)

  pub bool-Accounts :
      (context : Context Q) (b : Bool) → Accounts L.counters (bool Q context b) 0 (owned_weight L)
  unfolding bool
  bool-Accounts context b = immediate-Accounts _ context (λ c. L.weight-new_bool c b)

  pub int32-Accounts :
      (context : Context Q) (n : ℤ) → Accounts L.counters (int32 Q context n) 0 (owned_weight L)
  unfolding int32
  int32-Accounts context n = immediate-Accounts _ context (λ c. L.weight-new_int32 c n)

  pub global_object-Accounts :
      (context : Context Q) → Accounts L.counters (global_object Q context) 0 (owned_weight L)
  unfolding global_object
  global_object-Accounts context = created-Accounts _ context L.value-get_global_object

  pub string-Accounts :
      (context : Context Q) (text : String)
      → Accounts L.counters (string Q context text) 0 (owned_weight L)
  unfolding string
  string-Accounts context text = created-Accounts _ context (λ c. L.value-new_string c text)

  pub object-Accounts :
      (context : Context Q) → Accounts L.counters (object Q context) 0 (owned_weight L)
  unfolding object
  object-Accounts context = created-Accounts _ context L.value-new_object

  pub array-Accounts :
      (context : Context Q) → Accounts L.counters (array Q context) 0 (owned_weight L)
  unfolding array
  array-Accounts context = created-Accounts _ context L.value-new_array
