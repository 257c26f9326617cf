-- ===== src/Rule/Scripting.antt =====
-- The engine of the rules over the script runtime: RuleEngine::Create, CreateMatchContext and
-- EvaluateMatch of src/proxypp/rule/rule_engine.cpp, as the matcher of Rule.Apply.
pub mod Owning
pub mod Laws
use proxypp.Prelude.{
  ℕ, zero, suc, ◌+◌, ◌-◌, ◌*◌, ◌/◌, ◌%◌, ◌^◌, ◌≤◌, ◌<◌, min, String, ◌≡◌, refl, sym, ap, subst, ◌∙◌,
  ◌≡⟨◌⟩◌, ◌∎, ◌≢◌, ◌↔◌, ◌⊎◌, inl, inr, Bool, true, false, not, ◌&&◌, ◌||◌, Option, none, some, List,
  [], ◌∷◌, ◌++◌, map, append-nil, append_assoc, arith, eq_iff, ltb, leb, ◌==◌, ◌+++◌, str_eq,
  if◌then◌else◌, ltb→lt, lt→ltb, ==_iff, Bool-cases, Option-cases, length, take, drop, All,
  length-append, take-append-drop, length-take, length-drop, take-length, drop-length, filter,
  contains,
}
use proxypp.Prelude.Int.{ℤ, wrap_int32}
use proxypp.Error.{
  rule, create_runtime_failed, create_context_failed, execute_script_failed,
  rule_context_preparation_failed, rule_engine_initialization_failed, match_evaluation_failed,
  match_result_not_boolean, on_error, map_error, Code, qjs, QjsErrc, invalid_context,
  js_internal_error, convert_value_failed, get_property_failed, set_property_failed,
  get_element_failed, set_element_failed, finally, Error, make_error, Result, ok, err, R, pure,
  fail, bind, ◌>>=◌, ◌>>◌, call, act,
}
use proxypp.Script.Quickjs.{Quickjs}
use proxypp.Script.Value.{Value, destroy, is_bool}
use proxypp.Script.Value.Convert.{to_bool}
use proxypp.Script.Runtime.{Runtime}
use proxypp.Script.Runtime
use proxypp.Script.Context
use proxypp.Script.Evaluator.{eval, default_file_name}
use proxypp.Rule.MatchContext.{MatchContext}
use proxypp.Rule.Apply.{Matcher}

-- rule::RuleEngine, with its Impl.
pub record RuleEngine (Q : Quickjs) : Type 0 where
  pub runtime : Runtime Q

abbrev pub initialization_error : String → Error → Error
initialization_error text e =
    make_error (rule rule_engine_initialization_failed) (text +++ e.message)

-- The texts of EvaluateMatch.
abbrev about_expression : String → String → String
about_expression text expr = text +++ ": expr=\"" +++ expr +++ "\""

abbrev pub evaluation_error : String → String → Error → Error
evaluation_error text expr e =
    make_error (rule match_evaluation_failed)
      (about_expression text expr +++ ", error=\"" +++ e.message +++ "\"")

abbrev pub not_boolean_error : String → Error
not_boolean_error expr =
    make_error (rule match_result_not_boolean)
      (about_expression "match expression result is not boolean" expr)

module _ (Q : Quickjs) where
  -- RuleEngine::Create
  unfoldable pub create : R Q.Heap (RuleEngine Q)
  create = do
    runtime ← map_error (initialization_error "create qjs runtime failed: ") (Runtime.create Q)
    pure (record { runtime = runtime })

  -- RuleEngine::CreateMatchContext
  unfoldable pub create_match_context : RuleEngine Q → R Q.Heap (MatchContext Q)
  create_match_context engine = do
    context ←
        map_error (initialization_error "create match context failed: ")
          (Context.create Q engine.runtime)
    pure (record { script_context = context })

  -- EvaluateMatch, from the value of the expression on.
  unfoldable pub evaluated : String → Value Q → R Q.Heap Bool
  evaluated expr result =
      if not (is_bool Q result)
      then fail (not_boolean_error expr)
      else map_error (evaluation_error "failed to convert match expression result to boolean" expr)
          (to_bool Q result)

  -- RuleEngine::EvaluateMatch
  unfoldable pub evaluate_match : MatchContext Q → String → R Q.Heap Bool
  evaluate_match context expr = do
    result ←
        map_error (evaluation_error "failed to evaluate match expression" expr)
          (eval Q context.script_context expr default_file_name)
    finally (destroy Q result) (evaluated expr result)

  abbrev pub script_matcher : RuleEngine Q → Matcher
  script_matcher engine = record {
    Runtime = Q.Heap;
    Context = MatchContext Q;
    create_match_context = create_match_context engine;
    evaluate_match = evaluate_match;
    destroy_context = λ context. Context.destroy Q context.script_context;
  }
