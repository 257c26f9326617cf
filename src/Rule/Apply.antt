-- ===== src/Rule/Apply.antt =====
-- The rules of one phase applied to a message: src/proxypp/rule/http/apply.cpp.
pub mod Laws
use proxypp.Prelude.{
  ℕ, zero, suc, ◌+◌, ◌-◌, ◌*◌, ◌/◌, ◌%◌, ◌^◌, ◌≤◌, ◌<◌, min, String, ◌≡◌, refl, sym, ap, subst, ◌∙◌,
  ◌≡⟨◌⟩◌, ◌∎, ◌≢◌, ◌↔◌, ◌⊎◌, inl, inr, Bool, true, false, not, ◌&&◌, ◌||◌, Option, none, some, List,
  [], ◌∷◌, ◌++◌, map, append-nil, append_assoc, arith, eq_iff, ltb, leb, ◌==◌, str_eq,
  if◌then◌else◌, ltb→lt, lt→ltb, ==_iff, Bool-cases, Option-cases, length, take, drop, All,
  length-append, take-append-drop, length-take, length-drop, take-length, drop-length, filter,
  contains,
}
use proxypp.Error.{Result, ok, err, R, pure}
use proxypp.Rule.Model.{Rule, Action, Match, HttpConfig, Phase, phase_eq}
use proxypp.Rule.Adapter.{Adapter}
use proxypp.Rule.Engine.{Callbacks, apply_rules}
use proxypp.Rule.Executor.{execute_request_action, execute_response_action}

-- The match contexts of the engine (RuleEngine::CreateMatchContext and EvaluateMatch), over the
-- state of the script runtime.
pub record Matcher : Type 1 where
  pub Runtime : Type 0
  pub Context : Type 0
  pub create_match_context : R Runtime Context
  pub evaluate_match : Context → String → R Runtime Bool
  pub destroy_context : Context → Runtime → Runtime

module _ {E A B : Type 0} where
  -- An operation on one part of a pair of states.
  abbrev pub on_left : R E B → R (E × A) B
  on_left m s = ((m s.0).0, ((m s.0).1, s.1))

  abbrev pub on_right : R A B → R (E × A) B
  on_right m s = ((m s.1).0, (s.0, (m s.1).1))

-- rule.enabled && rule.phase == phase
abbrev pub in_phase : Phase → Rule → Bool
in_phase phase rule = rule.enabled && phase_eq rule.phase phase

module _ (E : Matcher) {A : Type 0} where
  -- The callbacks that both functions pass to ApplyRules.
  unfoldable pub callbacks :
      Phase
      → (E.Context → A → R E.Runtime (Unit {0}))
      → (Action → R A (Unit {0}))
      → Callbacks (E.Runtime × A) Rule Action Match E.Context
  callbacks phase inject execute = record {
    filter_rule = in_phase phase;
    create_context = on_left E.create_match_context;
    inject_context = λ context s. on_left (inject context s.1) s;
    evaluate_match = λ context match. on_left (E.evaluate_match context match.expr);
    get_match = λ rule. rule.match;
    get_actions = λ rule. rule.actions;
    execute_action = λ action. on_right (execute action);
    destroy_context = λ context s. (E.destroy_context context s.0, s.1);
  }

  abbrev apply_nonempty :
      Callbacks (E.Runtime × A) Rule Action Match E.Context
      → List Rule
      → R (E.Runtime × A) (Unit {0})
  apply_nonempty cb [] = pure tt
  apply_nonempty cb (rule ∷ rules) = apply_rules cb (rule ∷ rules)

  module _ (ops : Adapter A) (to_lower : String → String) where
    -- `inject` is InjectRequestContext, which reads the adapter.
    unfoldable pub apply_request :
        (E.Context → A → R E.Runtime (Unit {0})) → Option (List Rule) → R (E.Runtime × A) (Unit {0})
    apply_request inject none = pure tt
    apply_request inject (some rules) =
        apply_nonempty (callbacks Phase.request inject (execute_request_action ops to_lower)) rules

    -- `inject` is InjectResponseContext with the request adapter that it reads too.
    unfoldable pub apply_response :
        (E.Context → A → R E.Runtime (Unit {0})) → Option (List Rule) → R (E.Runtime × A) (Unit {0})
    apply_response inject none = pure tt
    apply_response inject (some rules) =
        apply_rules (callbacks Phase.response inject (execute_response_action ops to_lower)) rules
