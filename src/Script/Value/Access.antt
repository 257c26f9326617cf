-- ===== src/Script/Value/Access.antt =====
-- The references that the getters and the setters of src/proxypp/script/qjs/value.cpp take and give
-- back, on every path.
use proxypp.Prelude.{
  ℕ, String, ◌≡◌, refl, ap, inl, inr, Bool, true, false, Option, none, some, arith, Bool-cases,
}
use proxypp.Prelude.Int.{to_uint32}
use proxypp.Error.{
  qjs, QjsErrc, js_internal_error, get_property_failed, set_property_failed, get_element_failed,
  set_element_failed, finally, Error, make_error, fail, ◌>>=◌, call,
}
use proxypp.Script.Quickjs.{Quickjs, QuickjsLaws, Ledger}
use proxypp.Script.Ledger.{
  handing-Accounts, Accounts, recount-Accounts, bind-Accounts, call-Accounts, fail-Accounts,
  pure-Accounts,
}
use proxypp.Script.Value.{
  adopt_checked, Value, handle, destroy, is_number, invalid_value_error, context_mismatch_error,
}
use proxypp.Script.Value.Owning.{
  owned_weight, handle_weight, scope-Accounts, adopt_checked-Accounts, pending_error-Accounts,
}
use proxypp.Script.Value.Convert.Owning.{to_int32-Accounts}
use proxypp.Script.Value.Property.{
  get_property_of, get_property, set_result, set_checked, set_tested, set_property, set_element,
  get_element_of, get_element, length_of_number, array_length_of, array_length,
}

module _ {Q : Quickjs} (L : QuickjsLaws Q) where
  got-Accounts :
      (get : Q.Heap → Q.JsValue × Q.Heap) (code : QjsErrc) (c : Q.JsContext)
      → ((h : Q.Heap) → Ledger L.counters h (get h).1 0 (L.weight (get h).0))
      → Accounts L.counters (do v ← call get; adopt_checked Q code c v) 0 (owned_weight L)
  got-Accounts get code c p =
      bind-Accounts L.counters _ (call-Accounts L.counters L.weight 0 (λ h. (p h)))
        (λ v. recount-Accounts L.counters (adopt_checked-Accounts L code c v) (omega arith))

  get_property_of-Accounts :
      (name : String) (o : Option (Q.JsContext × Q.JsValue))
      → Accounts L.counters (get_property_of Q name o) 0 (owned_weight L)
  unfolding get_property_of
  get_property_of-Accounts name none =
      fail-Accounts L.counters (invalid_value_error Q "target is invalid")
  get_property_of-Accounts name (some (c, v)) =
      got-Accounts _ get_property_failed c (L.value-get_property_str c v name)

  pub get_property-Accounts :
      (name : String) (target : Value Q)
      → Accounts L.counters (get_property Q name target) 0 (owned_weight L)
  unfolding get_property
  get_property-Accounts name target = get_property_of-Accounts name (handle Q target)

  destroyed-Accounts :
      {A : Type 0} {g : A → ℕ} (value : Value Q) (e : Error)
      → Accounts L.counters (finally (destroy Q value) (fail e)) (owned_weight L value) g
  destroyed-Accounts value e = scope-Accounts L value (fail-Accounts L.counters e)

  set_result-Accounts :
      (code : QjsErrc) (c : Q.JsContext) (b : Bool)
      → Accounts L.counters (set_result Q code c b) 0 (λ _. 0)
  unfolding set_result
  set_result-Accounts code c true = pure-Accounts L.counters tt
  set_result-Accounts code c false = pending_error-Accounts L code c

  module _ (code : QjsErrc) (set : Q.JsContext → Q.JsValue → Q.JsValue → Q.Heap → Bool × Q.Heap)
      (p : (c : Q.JsContext) (v u : Q.JsValue) (h : Q.Heap)
        → Ledger L.counters h (set c v u h).1 (L.weight u) 0) where
    set_checked-Accounts :
        (invalid : String) (target : Q.JsContext × Q.JsValue) (value : Value Q)
        (o : Option (Q.JsContext × Q.JsValue))
        → handle Q value ≡ o
        → Accounts L.counters
            (set_checked Q code set invalid target value o)
            (handle_weight L o)
            (λ _. 0)
    unfolding set_checked
    set_checked-Accounts invalid (c, v) value none e =
        recount-Accounts L.counters (destroyed-Accounts value (invalid_value_error Q invalid))
          (ap (handle_weight L) e)
    set_checked-Accounts invalid (c, v) value (some (d, u)) e =
        elim (Bool-cases (Q.same_context c d)) [
          | inl same ↦ rw same (
              bind-Accounts L.counters _ (handing-Accounts L.counters (L.weight u) (p c v u))
                (set_result-Accounts code c))
          | inr other ↦ rw other (
              recount-Accounts L.counters (destroyed-Accounts value (context_mismatch_error Q))
                (ap (handle_weight L) e))
        ]

    set_tested-Accounts :
        (test : Q.JsValue → Bool) (no_target invalid : String) (value : Value Q)
        (o : Option (Q.JsContext × Q.JsValue))
        → Accounts L.counters
            (set_tested Q code set test no_target invalid value o)
            (owned_weight L value)
            (λ _. 0)
    unfolding set_tested
    set_tested-Accounts test no_target invalid value none =
        destroyed-Accounts value (invalid_value_error Q "target is invalid")
    set_tested-Accounts test no_target invalid value (some (c, v)) = elim (Bool-cases (test v)) [
      | inl holds ↦ rw holds (set_checked-Accounts invalid (c, v) value (handle Q value) refl)
      | inr fails ↦ rw fails (destroyed-Accounts value (invalid_value_error Q no_target))
    ]

  pub set_property-Accounts :
      (name : String) (value target : Value Q)
      → Accounts L.counters (set_property Q name value target) (owned_weight L value) (λ _. 0)
  unfolding set_property
  set_property-Accounts name value target =
      set_tested-Accounts set_property_failed _ (λ c v u h. (L.value-set_property_str c v name u h))
        Q.is_object "target is not an object" "property value is invalid" value (handle Q target)

  pub set_element-Accounts :
      (index : ℕ) (value target : Value Q)
      → Accounts L.counters (set_element Q index value target) (owned_weight L value) (λ _. 0)
  unfolding set_element
  set_element-Accounts index value target =
      set_tested-Accounts set_element_failed _
        (λ c v u h. (L.value-set_property_uint32 c v index u h)) Q.is_array "target is not an array"
        "value to set is invalid" value (handle Q target)

  get_element_of-Accounts :
      (index : ℕ) (o : Option (Q.JsContext × Q.JsValue))
      → Accounts L.counters (get_element_of Q index o) 0 (owned_weight L)
  unfolding get_element_of
  get_element_of-Accounts index none =
      fail-Accounts L.counters (invalid_value_error Q "target is invalid")
  get_element_of-Accounts index (some (c, v)) = elim (Bool-cases (Q.is_array v)) [
    | inl holds ↦
        rw holds (got-Accounts _ get_element_failed c (L.value-get_property_uint32 c v index))
    | inr fails ↦
        rw fails (fail-Accounts L.counters (invalid_value_error Q "target is not an array"))
  ]

  pub get_element-Accounts :
      (index : ℕ) (target : Value Q)
      → Accounts L.counters (get_element Q index target) 0 (owned_weight L)
  unfolding get_element
  get_element-Accounts index target = get_element_of-Accounts index (handle Q target)

  length_of_number-Accounts :
      (value : Value Q) → Accounts L.counters (length_of_number Q value) 0 (λ _. 0)
  unfolding length_of_number
  length_of_number-Accounts value = elim (Bool-cases (is_number Q value)) [
    | inl holds ↦ rw holds (
        bind-Accounts L.counters _ (to_int32-Accounts L value)
          λ n. pure-Accounts L.counters (to_uint32 n))
    | inr fails ↦ rw fails (
        fail-Accounts L.counters
          (make_error (qjs js_internal_error) "array length is not a number"))
  ]

  array_length_of-Accounts :
      (o : Option (Q.JsContext × Q.JsValue)) → Accounts L.counters (array_length_of Q o) 0 (λ _. 0)
  unfolding array_length_of
  array_length_of-Accounts none =
      fail-Accounts L.counters (invalid_value_error Q "target is invalid")
  array_length_of-Accounts (some (c, v)) = elim (Bool-cases (Q.is_array v)) [
    | inl holds ↦ rw holds (
        bind-Accounts L.counters _
          (call-Accounts L.counters L.weight 0 (λ h. (L.value-get_property_str c v "length" h)))
          λ v'.
            bind-Accounts L.counters _
              (recount-Accounts L.counters (adopt_checked-Accounts L get_property_failed c v')
                (omega arith))
              λ number. scope-Accounts L number (length_of_number-Accounts number))
    | inr fails ↦
        rw fails (fail-Accounts L.counters (invalid_value_error Q "target is not an array"))
  ]

  pub array_length-Accounts :
      (target : Value Q) → Accounts L.counters (array_length Q target) 0 (λ _. 0)
  unfolding array_length
  array_length-Accounts target = array_length_of-Accounts (handle Q target)
