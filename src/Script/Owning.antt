-- ===== src/Script/Owning.antt =====
-- The references that the owner of a context and the evaluator take and give back.
use proxypp.Prelude.{
  false, ℕ, ◌+◌, String, ◌≡◌, refl, inl, inr, Option, none, some, arith, ◌+++◌, Bool-cases,
}
use proxypp.Error.{create_context_failed, execute_script_failed, qjs, make_error}
use proxypp.Script.Quickjs.{Quickjs, QuickjsLaws, Ledger}
use proxypp.Script.Ledger.{
  Accounts, recount-Accounts, bind-Accounts, call-Accounts, fail-Accounts, pure-Accounts,
}
use proxypp.Script.Value.{Context}
use proxypp.Script.Value.Owning.{
  owned_weight, free-Accounts, get_exception_message-Accounts, adopt-Accounts,
}
use proxypp.Script.Value.Making.{in_context-Accounts}
use proxypp.Script.Runtime.{Runtime}
use proxypp.Script.Context.{assign, move_from, created, create, free, destroy}
use proxypp.Script.Evaluator.{eval_result, eval}

module _ {Q : Quickjs} (L : QuickjsLaws Q) where
  abbrev handles : Option Q.JsContext → ℕ
  handles none = 0
  handles (some c) = 1

  -- The references that the owner of a context holds.
  abbrev pub context_weight : Context Q → ℕ
  context_weight context = handles context.native_handle

  handles_lem : (o : Option Q.JsContext) → elim o as (λ _. ℕ) [ none ↦ 0 | some c ↦ 1 ] ≡ handles o
  handles_lem none = refl
  handles_lem (some c) = refl

  created-Accounts :
      (o : Option Q.JsContext) → Accounts L.counters (created Q o) (handles o + 0) context_weight
  created-Accounts none =
      recount-Accounts L.counters
        (fail-Accounts L.counters (make_error (qjs create_context_failed) "")) (omega arith)
  created-Accounts (some c) =
      recount-Accounts L.counters (pure-Accounts L.counters (record { native_handle = some c }))
        (omega arith)

  pub create-Accounts :
      (runtime : Runtime Q) → Accounts L.counters (create Q runtime) 0 context_weight
  unfolding create
  create-Accounts runtime =
      bind-Accounts L.counters _
        (call-Accounts L.counters handles 0 (λ h. omega (
          arith,
          L.context-new_context runtime.native_handle h,
          handles_lem (Q.new_context runtime.native_handle h).0,
        )))
        created-Accounts

  pub destroy-Ledger :
      (context : Context Q) (h : Q.Heap)
      → Ledger L.counters h (destroy Q context h) (context_weight context) 0
  unfolding destroy
  destroy-Ledger context h = go context.native_handle
    where
      go : (o : Option Q.JsContext) → Ledger L.counters h (free Q o h) (handles o) 0
      go none = omega arith
      go (some c) = L.context-free_context c h

  -- The assignment of another context frees what this one held, once, and moves what the other held.
  pub assign-Ledger :
      (this other : Context Q) (h : Q.Heap)
      → Ledger L.counters h
          (assign Q false this other h).1
          (context_weight this + context_weight other)
          (context_weight (assign Q false this other h).0.0
            + context_weight (assign Q false this other h).0.1)
  unfolding assign move_from destroy
  assign-Ledger this other h = omega (arith, destroy-Ledger this h)

  eval_result-Accounts :
      (c : Q.JsContext) (file_name : String) (result : Q.JsValue)
      → Accounts L.counters
          (eval_result Q c file_name result)
          (L.weight result + 0)
          (owned_weight L)
  unfolding eval_result
  eval_result-Accounts c file_name result = elim (Bool-cases (Q.is_exception result)) [
    | inl bad ↦ rw bad (
        bind-Accounts L.counters _ (get_exception_message-Accounts L c (L.weight result + 0))
          λ message. bind-Accounts L.counters _ (free-Accounts L c result 0) λ _.
            fail-Accounts L.counters
              (make_error (qjs execute_script_failed) (message +++ ", from " +++ file_name)))
    | inr good ↦ rw good (recount-Accounts L.counters (adopt-Accounts L c result) (omega arith))
  ]

  pub eval-Accounts :
      (context : Context Q) (expr file_name : String)
      → Accounts L.counters (eval Q context expr file_name) 0 (owned_weight L)
  unfolding eval
  eval-Accounts context expr file_name = in_context-Accounts L context _ λ c.
      bind-Accounts L.counters _
        (call-Accounts L.counters L.weight 0 (L.value-eval c expr file_name))
        (eval_result-Accounts c file_name)
