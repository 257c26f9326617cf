-- ===== src/Rule/Engine.antt =====
-- The execution of rules, whatever the protocol: RuleEngine::ApplyRules and ExecuteActions of
-- src/proxypp/rule/rule_engine.h. The callbacks are parameters, as they are those of the template;
-- they act on a state S, which they may change also where they fail.
pub mod Laws
pub mod BigStep
pub mod Owning
use proxypp.Prelude.{
  ℕ, zero, suc, ◌+◌, ◌-◌, ◌*◌, ◌/◌, ◌%◌, ◌^◌, ◌≤◌, ◌<◌, min, String, ◌≡◌, refl, sym, ap, subst, ◌∙◌,
  ◌≡⟨◌⟩◌, ◌∎, ◌≢◌, ◌↔◌, ◌⊎◌, inl, inr, Bool, true, false, not, ◌&&◌, ◌||◌, Option, none, some, List,
  [], ◌∷◌, ◌++◌, map, append-nil, append_assoc, arith, eq_iff, ltb, leb, ◌==◌, str_eq,
  if◌then◌else◌, ltb→lt, lt→ltb, ==_iff, Bool-cases, Option-cases, length, take, drop, All,
  length-append, take-append-drop, length-take, length-drop, take-length, drop-length, filter,
  contains,
}
use proxypp.Error.{Result, ok, err, R, pure, bind, ◌>>=◌, ◌>>◌, finally}

-- detail::ExecuteActions
pub execute_actions : {S Action : Type 0} → (Action → R S (Unit {0})) → List Action → R S (Unit {0})
execute_actions execute_action [] = pure tt
execute_actions execute_action (action ∷ actions) =
    execute_action action >> execute_actions execute_action actions

-- The callbacks of ApplyRules, with CreateMatchContext and EvaluateMatch of the engine and
-- the destructor of a context.
pub record Callbacks (S Rule Action Match Context : Type 0) : Type 0 where
  pub filter_rule : Rule → Bool
  pub create_context : R S Context
  pub inject_context : Context → R S (Unit {0})
  pub evaluate_match : Context → Match → R S Bool
  pub get_match : Rule → Option Match
  pub get_actions : Rule → List Action
  pub execute_action : Action → R S (Unit {0})
  -- ~MatchContext, at the end of the loop's body.
  pub destroy_context : Context → S → S

module _ {S Rule Action Match Context : Type 0} (cb : Callbacks S Rule Action Match Context) where
  -- The actions of a rule that has a match expression, by its result.
  if_matched : Rule → Bool → R S (Unit {0})
  if_matched rule true = execute_actions cb.execute_action (cb.get_actions rule)
  if_matched rule false = pure tt

  -- What is done while the context of a rule exists.
  in_context : Context → Rule → Match → R S (Unit {0})
  in_context context rule match = do
    cb.inject_context context
    matched ← cb.evaluate_match context match
    if_matched rule matched

  -- The body of the loop for a rule that the filter accepts, by its match expression.
  apply_accepted : Rule → Option Match → R S (Unit {0})
  apply_accepted rule none = execute_actions cb.execute_action (cb.get_actions rule)
  apply_accepted rule (some match) = do
    context ← cb.create_context
    finally (cb.destroy_context context) (in_context context rule match)

  -- The body of the loop.
  apply_rule : Rule → R S (Unit {0})
  apply_rule rule s =
      if cb.filter_rule rule then apply_accepted rule (cb.get_match rule) s else (ok tt, s)

  pub apply_rules : List Rule → R S (Unit {0})
  apply_rules [] = pure tt
  apply_rules (rule ∷ rules) = apply_rule rule >> apply_rules rules
