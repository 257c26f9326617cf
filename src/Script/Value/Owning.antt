-- ===== src/Script/Value/Owning.antt =====
-- Every value that QuickJS hands out is owned by one wrapper or freed, on every path of the
-- factories of src/proxypp/script/qjs/value.cpp and of the reading of an exception.
use proxypp.Prelude.{
  ℕ, ◌+◌, ◌≡◌, refl, inl, inr, Bool, true, false, ◌||◌, Option, none, some, arith, Bool-cases,
}
use proxypp.Error.{qjs, QjsErrc, make_error, R, call, act, finally, on_error}
use proxypp.Script.Quickjs.{Quickjs, QuickjsLaws, Ledger}
use proxypp.Script.Ledger.{
  on_error-Accounts, finally-Accounts, Accounts, recount-Accounts, bind-Accounts, call-Accounts,
  act-Accounts, fail-Accounts, pure-Accounts,
}
use proxypp.Script.Value.{
  Value, free_owned, destroy, handle, adopt, exception_text, convert_exception_text,
  no_exception_text, message_of, get_exception_message, pending_error, adopt_checked,
}

module _ {Q : Quickjs} (L : QuickjsLaws Q) where
  abbrev pub handle_weight : Option (Q.JsContext × Q.JsValue) → ℕ
  handle_weight none = 0
  handle_weight (some (c, v)) = L.weight v

  -- The references that a wrapper owns.
  abbrev pub owned_weight : Value Q → ℕ
  owned_weight value = handle_weight (handle Q value)

  pub destroy-Ledger :
      (value : Value Q) (h : Q.Heap)
      → Ledger L.counters h (destroy Q value h) (owned_weight value) 0
  unfolding destroy
  destroy-Ledger none h = omega arith
  destroy-Ledger (some impl) h = go impl.owns_value impl.context impl.value
    where
      go :
          (owns : Bool) (c : Option Q.JsContext) (v : Q.JsValue)
          → Ledger L.counters h
              (free_owned Q owns c v h)
              (owned_weight (some (record { context = c; value = v; owns_value = owns })))
              0
      go true (some c) v = (L.value-free_value c v h)
      go true none v = omega arith
      go false (some c) v = omega arith
      go false none v = omega arith

  pub free-Accounts :
      (c : Q.JsContext) (v : Q.JsValue) (frame : ℕ)
      → Accounts L.counters (act (Q.free_value c v)) (L.weight v + frame) (λ _. frame)
  free-Accounts c v frame =
      act-Accounts L.counters (L.weight v) frame (λ h. (L.value-free_value c v h))

  exception-Accounts :
      (c : Q.JsContext) (frame : ℕ)
      → Accounts L.counters (call (Q.get_exception c)) frame (λ v. L.weight v + frame)
  exception-Accounts c frame =
      call-Accounts L.counters L.weight frame (λ h. (L.value-get_exception c h))

  abbrev pub text_weight : Option Q.Cstring → ℕ
  text_weight none = 0
  text_weight (some s) = 1

  text_weight_lem :
      (o : Option Q.Cstring) → elim o as (λ _. ℕ) [ none ↦ 0 | some s ↦ 1 ] ≡ text_weight o
  text_weight_lem none = refl
  text_weight_lem (some s) = refl

  pub to_cstring-Accounts :
      (c : Q.JsContext) (v : Q.JsValue) (frame : ℕ)
      → Accounts L.counters (call (Q.to_cstring c v)) frame (λ s. text_weight s + frame)
  to_cstring-Accounts c v frame =
      call-Accounts L.counters text_weight frame
        (λ h. omega (arith, (L.cstring-to_cstring c v h), text_weight_lem (Q.to_cstring c v h).0))

  pub free_cstring-Accounts :
      (c : Q.JsContext) (s : Q.Cstring) (frame : ℕ)
      → Accounts L.counters (act (Q.free_cstring c s)) (1 + frame) (λ _. frame)
  free_cstring-Accounts c s frame =
      act-Accounts L.counters 1 frame (λ h. (L.cstring-free_cstring c s h))

  exception_text-Accounts :
      (c : Q.JsContext) (frame : ℕ) (exception : Q.JsValue) (c_str : Option Q.Cstring)
      → Accounts L.counters
          (exception_text Q c exception c_str)
          (text_weight c_str + (L.weight exception + frame))
          (λ _. frame)
  unfolding exception_text
  exception_text-Accounts c frame exception none =
      bind-Accounts L.counters _
        (recount-Accounts L.counters (exception-Accounts c (L.weight exception + frame))
          (omega arith))
        λ v. bind-Accounts L.counters _ (free-Accounts c v _) λ _.
          bind-Accounts L.counters _ (free-Accounts c exception frame)
            λ _. pure-Accounts L.counters "<failed to convert QuickJS exception to string>"
  exception_text-Accounts c frame exception (some c_str) =
      bind-Accounts L.counters _ (free_cstring-Accounts c c_str _) λ _.
        bind-Accounts L.counters _ (free-Accounts c exception frame)
          λ _. pure-Accounts L.counters (Q.cstring_text c_str)

  message_of-Accounts :
      (c : Q.JsContext) (frame : ℕ) (exception : Q.JsValue)
      → Accounts L.counters (message_of Q c exception) (L.weight exception + frame) (λ _. frame)
  unfolding message_of no_exception_text convert_exception_text
  message_of-Accounts c frame exception =
      elim (Bool-cases (Q.is_null exception || Q.is_undefined exception)) [
        | inl nothing ↦ rw nothing (
            bind-Accounts L.counters _ (free-Accounts c exception frame)
              λ _. pure-Accounts L.counters "<unknown QuickJS exception>")
        | inr something ↦ rw something (
            bind-Accounts L.counters _
              (to_cstring-Accounts c exception (L.weight exception + frame))
              (exception_text-Accounts c frame exception))
      ]

  pub get_exception_message-Accounts :
      (c : Q.JsContext) (frame : ℕ)
      → Accounts L.counters (get_exception_message Q c) frame (λ _. frame)
  unfolding get_exception_message
  get_exception_message-Accounts c frame =
      bind-Accounts L.counters _ (exception-Accounts c frame) (message_of-Accounts c frame)

  pub pending_error-Accounts :
      {A : Type 0} (code : QjsErrc) (c : Q.JsContext) {g : A → ℕ}
      → Accounts L.counters (pending_error Q code c) 0 g
  unfolding pending_error
  pending_error-Accounts code c =
      bind-Accounts L.counters _ (get_exception_message-Accounts c 0)
        λ message. fail-Accounts L.counters (make_error (qjs code) message)

  pub adopt-Accounts :
      (c : Q.JsContext) (v : Q.JsValue)
      → Accounts L.counters (adopt Q c v) (L.weight v) owned_weight
  unfolding adopt
  adopt-Accounts c v = record {
    ledger = λ h. elim (Bool-cases (Q.can_allocate h)) [
      | inl room ↦ rw room (omega arith)
      | inr full ↦ rw full (L.value-free_value c v h)
    ];
  }

  pub adopt_checked-Accounts :
      (code : QjsErrc) (c : Q.JsContext) (v : Q.JsValue)
      → Accounts L.counters (adopt_checked Q code c v) (L.weight v) owned_weight
  unfolding adopt_checked
  adopt_checked-Accounts code c v = elim (Bool-cases (Q.is_exception v)) [
    | inl bad ↦ rw bad (
        bind-Accounts L.counters _ (get_exception_message-Accounts c (L.weight v)) λ message.
          bind-Accounts L.counters _
            (recount-Accounts L.counters (free-Accounts c v 0) (omega arith))
            λ _. fail-Accounts L.counters (make_error (qjs code) message))
    | inr good ↦ rw good (adopt-Accounts c v)
  ]

  -- A value that is destroyed at the end of a scope in which no other reference is kept.
  pub scope-Accounts :
      {A : Type 0} {m : R Q.Heap A} {g : A → ℕ} (value : Value Q)
      → Accounts L.counters m 0 g
      → Accounts L.counters (finally (destroy Q value) m) (owned_weight value) g
  scope-Accounts value p =
      recount-Accounts L.counters
        (finally-Accounts L.counters (destroy Q value) 0 (owned_weight value) p
          (destroy-Ledger value))
        (omega arith)

  -- A value that is destroyed only if an operation fails, while no other reference is kept.
  pub guard-Accounts :
      {A : Type 0} {m : R Q.Heap A} {g : A → ℕ} (value : Value Q)
      → Accounts L.counters m 0 g
      → Accounts L.counters
          (on_error (destroy Q value) m)
          (owned_weight value)
          (λ a. g a + owned_weight value)
  guard-Accounts value p =
      recount-Accounts L.counters
        (on_error-Accounts L.counters (destroy Q value) 0 (owned_weight value) p
          (destroy-Ledger value))
        (omega arith)
