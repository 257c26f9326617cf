-- ===== src/Rule/Scripting/Owning.antt =====
-- The script runtime under the rules: no reference is kept or given back twice, and only the Boolean
-- value of a match expression counts.
use proxypp.Prelude.{ℕ, String, inl, inr, Option, none, some, List, [], ◌∷◌, arith, Bool-cases}
use proxypp.Error.{R}
use proxypp.Script.Quickjs.{Quickjs, QuickjsLaws, Counters, Balanced}
use proxypp.Script.Ledger.{
  held-zero, map_error-Accounts, Accounts, bind-Accounts, fail-Accounts, pure-Accounts,
}
use proxypp.Script.Value.{Value, is_bool}
use proxypp.Script.Value.Owning.{scope-Accounts}
use proxypp.Script.Value.Convert.Owning.{to_bool-Accounts}
use proxypp.Script.Owning
use proxypp.Script.Owning.{context_weight, eval-Accounts}
use proxypp.Script.Evaluator.{default_file_name}
use proxypp.Rule.Model.{Rule, Action, Phase}
use proxypp.Rule.Adapter.{Adapter, RequestReader, ResponseReader}
use proxypp.Rule.Engine.{apply_rules}
use proxypp.Rule.Engine.Owning.{apply_rules-Accounts}
use proxypp.Rule.Executor.{execute_request_action, execute_response_action}
use proxypp.Rule.Apply.{on_left, on_right, callbacks, apply_request, apply_response}
use proxypp.Rule.MatchContext.{MatchContext}
use proxypp.Rule.Injector.{inject_request_context, inject_response_context}
use proxypp.Rule.Injector.Owning.{inject_request_context-Accounts, inject_response_context-Accounts}
use proxypp.Rule.Scripting.{
  RuleEngine, create_match_context, not_boolean_error, evaluated, evaluate_match, script_matcher,
}

module _ {Q : Quickjs} (L : QuickjsLaws Q) where
  abbrev match_context_weight : MatchContext Q → ℕ
  match_context_weight context = context_weight L context.script_context

  create_match_context-Accounts :
      (engine : RuleEngine Q)
      → Accounts L.counters (create_match_context Q engine) 0 match_context_weight
  unfolding create_match_context
  create_match_context-Accounts engine =
      bind-Accounts L.counters _
        (map_error-Accounts L.counters _ (Owning.create-Accounts L engine.runtime))
        λ context. pure-Accounts L.counters (record { script_context = context })

  evaluated-Accounts :
      (expr : String) (result : Value Q) → Accounts L.counters (evaluated Q expr result) 0 (λ _. 0)
  unfolding evaluated
  evaluated-Accounts expr result = elim (Bool-cases (is_bool Q result)) [
    | inl boolean ↦ rw boolean (map_error-Accounts L.counters _ (to_bool-Accounts L result))
    | inr other ↦ rw other (fail-Accounts L.counters (not_boolean_error expr))
  ]

  evaluate_match-Accounts :
      (context : MatchContext Q) (expr : String)
      → Accounts L.counters (evaluate_match Q context expr) 0 (λ _. 0)
  unfolding evaluate_match
  evaluate_match-Accounts context expr =
      bind-Accounts L.counters _
        (map_error-Accounts L.counters _
          (eval-Accounts L context.script_context expr default_file_name))
        λ result. scope-Accounts L result (evaluated-Accounts expr result)

  module _ {A : Type 0} where
    -- The references of a pair of states are those of the script runtime.
    abbrev pub left : Counters (Q.Heap × A)
    left = record {
      acquired = λ s. L.counters.acquired s.0;
      released = λ s. L.counters.released s.0;
    }

    on_left-Accounts :
        {B : Type 0} {m : R Q.Heap B} {lost : ℕ} {g : B → ℕ}
        → Accounts L.counters m lost g
        → Accounts left (on_left m) lost g
    on_left-Accounts p = record { ledger = λ s. p.ledger s.0 }

    on_right-Accounts : (m : R A (Unit {0})) → Accounts left (on_right m) 0 (λ _. 0)
    on_right-Accounts m = record { ledger = λ s. omega (arith, held-zero left (m s.1).0) }

    callbacks-Accounts :
        (engine : RuleEngine Q) (phase : Phase) (inject : MatchContext Q → A → R Q.Heap (Unit {0}))
        (execute : Action → R A (Unit {0}))
        → ((context : MatchContext Q) (a : A) → Accounts L.counters (inject context a) 0 (λ _. 0))
        → (rules : List Rule)
        → Accounts left
            (apply_rules (callbacks (script_matcher Q engine) phase inject execute) rules)
            0
            (λ _. 0)
    unfolding callbacks
    callbacks-Accounts engine phase inject execute p rules =
        apply_rules-Accounts (callbacks (script_matcher Q engine) phase inject execute) left
          match_context_weight (on_left-Accounts (create_match_context-Accounts engine))
          (λ context. record { ledger = λ s. (p context s.1).ledger s.0 })
          (λ context match. on_left-Accounts (evaluate_match-Accounts context match.expr))
          (λ action. on_right-Accounts (execute action))
          (λ context s. Owning.destroy-Ledger L context.script_context s.0) rules

    Balanced_lem :
        {m : R (Q.Heap × A) (Unit {0})} (s : Q.Heap × A)
        → Accounts left m 0 (λ _. 0)
        → Balanced L.counters s.0 (m s).1.0
    Balanced_lem {m} s p = omega (arith, p.ledger s, held-zero left (m s).0)

  module _ {A : Type 0} (ops : Adapter A) (reader : RequestReader A) (to_lower : String → String)
      (engine : RuleEngine Q) where
    -- Whatever rules are configured, and wherever they fail, applying them to a request gives back as
    -- many references as the script runtime hands out meanwhile.
    pub apply_request-Balanced :
        (rules : Option (List Rule)) (s : Q.Heap × A)
        → Balanced L.counters s.0
            (apply_request
              (script_matcher Q engine)
              ops
              to_lower
              (inject_request_context Q to_lower ops reader)
              rules
              s).1.0
    unfolding apply_request
    apply_request-Balanced none s = omega arith
    apply_request-Balanced (some []) s = omega arith
    apply_request-Balanced (some (rule ∷ rules)) s = Balanced_lem s (
        callbacks-Accounts engine Phase.request (inject_request_context Q to_lower ops reader)
          (execute_request_action ops to_lower)
          (inject_request_context-Accounts L to_lower ops reader) (rule ∷ rules))

  module _ {A B : Type 0} (request_ops : Adapter A) (request_reader : RequestReader A)
      (ops : Adapter B) (reader : ResponseReader B) (to_lower : String → String)
      (engine : RuleEngine Q) where
    -- So does applying them to a response.
    pub apply_response-Balanced :
        (request : A) (rules : Option (List Rule)) (s : Q.Heap × B)
        → Balanced L.counters s.0
            (apply_response
              (script_matcher Q engine)
              ops
              to_lower
              (inject_response_context Q to_lower ops reader request_ops request_reader request)
              rules
              s).1.0
    unfolding apply_response
    apply_response-Balanced request none s = omega arith
    apply_response-Balanced request (some rules) s = Balanced_lem s (
        callbacks-Accounts engine Phase.response _ (execute_response_action ops to_lower)
          (inject_response_context-Accounts L to_lower ops reader request_ops request_reader
            request)
          rules)
