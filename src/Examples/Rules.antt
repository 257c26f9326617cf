-- ===== src/Examples/Rules.antt =====
-- Actions and rules on the concrete headers.
use proxypp.Prelude.{
  ◌↔◌, String, ◌≡◌, refl, Bool, true, false, Option, none, some, List, [], ◌∷◌, eq_iff, str_eq,
  if◌then◌else◌,
}
use proxypp.Error.{ok, R}
use proxypp.Rule.Model.{Op, Target, header_name_value, Action, Match, Rule, Phase}
use proxypp.Rule.Adapter.{add_values}
use proxypp.Rule.Engine.{Callbacks, apply_rules}
use proxypp.Rule.Engine.Laws.{unfiltered}
use proxypp.Rule.Engine.BigStep.{Runs, apply_rules_iff}
use proxypp.Rule.Executor.{execute_action, execute_request_action}
use proxypp.Rule.Executor.Laws.{
  IsAllowed, Refuses, execute_action_allowed, execute_action_refused, execute_action_protected,
}
use proxypp.Rule.Apply.{Matcher, callbacks, apply_request, apply_response}
use proxypp.Rule.Apply.Laws.{
  apply_request_protected, apply_response_protected, Chosen, apply_request-Chosen,
}
use proxypp.Http.Fields.{values, values_in}
use proxypp.Http.Adapter.{
  RequestHeader, ResponseHeader, request_adapter, response_adapter, request_reader, response_reader,
  request_values, response_values,
}
use proxypp.Http.Adapter.Laws.{request_adapter-AdapterLaws, response_adapter-AdapterLaws}
use proxypp.Examples.Headers.{fields, fields-FieldsLaws}
use proxypp.Rule.MatchContext.{MatchContext}
use proxypp.Rule.Injector.{inject_request_context, inject_response_context}
use proxypp.Rule.Scripting.{script_matcher, evaluate_match, evaluated}
use proxypp.Rule.Scripting.Laws.{evaluate_match-boolean}
use proxypp.Script.Value.{Value, is_bool, adopt}
use proxypp.Script.Value.Convert.{to_bool}
use proxypp.Script.Evaluator.{eval, eval_result, default_file_name}
use proxypp.Examples.Scripts.{quickjs, engine, Heap, empty_heap}
use proxypp.Examples.Proxy.{get_request, short_response}

abbrev add_a : Action
add_a = record { op = Op.add; target = Target.header; action_data = header_name_value "x-a" "2" }

abbrev set_host : Action
set_host = record {
  op = Op.set;
  target = Target.header;
  action_data = header_name_value "host" "evil";
}

abbrev lower : String → String
lower name = name

same_lower : (n m : String) → str_eq n m ≡ true → lower n ≡ lower m
same_lower n m e = (eq_iff n m).0 e

add_a-IsAllowed : IsAllowed lower add_a (add_values "2")
add_a-IsAllowed = record { target = refl; supported = refl; fits = refl }

execute_action_allowed_example :
    let r = execute_action (request_adapter fields) lower add_a get_request.header in
    (r.0 ≡ ok tt)
    × ((m : String)
        → request_values fields m r.1 ≡ (
            if str_eq "x-a" m
            then add_values "2" (request_values fields m get_request.header)
            else request_values fields m get_request.header))
execute_action_allowed_example =
    execute_action_allowed (request_adapter-AdapterLaws fields-FieldsLaws) lower add_a
      (add_values "2") get_request.header add_a-IsAllowed

set_host-not-IsAllowed : (change : List String → List String) → ¬ IsAllowed lower set_host change
set_host-not-IsAllowed change h = let s : true ≡ false = h.supported in cc

execute_action_refused_example :
    Refuses
      (execute_action (request_adapter fields) lower set_host get_request.header)
      get_request.header
execute_action_refused_example =
    execute_action_refused (request_adapter fields) lower set_host get_request.header
      set_host-not-IsAllowed

execute_action_protected_example :
    request_values fields "host"
      (execute_action (request_adapter fields) lower set_host get_request.header).1
    ≡ "example.org" ∷ []
unfolding values values_in
execute_action_protected_example =
    execute_action_protected (request_adapter-AdapterLaws fields-FieldsLaws) lower same_lower
      set_host get_request.header "host" refl

abbrev rule_of : Bool → Option Match → Action → Rule
rule_of enabled match action = record {
  name = "rule";
  enabled = enabled;
  phase = Phase.request;
  match = match;
  actions = action ∷ [];
}

abbrev adding : Rule
adding = rule_of true none add_a

abbrev matching : Rule
matching = rule_of true (some (record { expr = "true" })) set_host

abbrev disabled : Rule
disabled = rule_of false none set_host

abbrev matcher : Matcher
matcher = script_matcher quickjs engine

abbrev inject : MatchContext quickjs → RequestHeader fields → R Heap (Unit {0})
inject = inject_request_context quickjs lower (request_adapter fields) (request_reader fields)

abbrev inject_response : MatchContext quickjs → ResponseHeader fields → R Heap (Unit {0})
inject_response =
    inject_response_context quickjs lower (response_adapter fields) (response_reader fields)
      (request_adapter fields) (request_reader fields) get_request.header

abbrev request_callbacks :
    Callbacks (Heap × RequestHeader fields) Rule Action Match (MatchContext quickjs)
request_callbacks =
    callbacks matcher Phase.request inject (execute_request_action (request_adapter fields) lower)

-- A rule that sets a protected header fails.
abbrev failing : Rule
failing = rule_of true none set_host

-- The header behind the rule that adds to it.
abbrev added : RequestHeader fields
added = (execute_request_action (request_adapter fields) lower add_a get_request.header).1

apply_rules_iff_example :
    (apply_rules request_callbacks (adding ∷ failing ∷ adding ∷ []) (empty_heap, get_request.header)
      ≡ (
        (execute_request_action (request_adapter fields) lower set_host get_request.header).0,
        (empty_heap, added),
      ))
    ↔ Runs request_callbacks
        (adding ∷ failing ∷ adding ∷ [])
        (empty_heap, get_request.header)
        (execute_request_action (request_adapter fields) lower set_host get_request.header).0
        (empty_heap, added)
apply_rules_iff_example =
    apply_rules_iff request_callbacks (adding ∷ failing ∷ adding ∷ [])
      (empty_heap, get_request.header) (empty_heap, added)
      (execute_request_action (request_adapter fields) lower set_host get_request.header).0

apply_request_protected_example :
    request_values fields "host"
      (apply_request matcher
        (request_adapter fields)
        lower
        inject
        (some (adding ∷ matching ∷ []))
        (empty_heap, get_request.header)).1.1
    ≡ "example.org" ∷ []
unfolding values values_in
apply_request_protected_example =
    apply_request_protected matcher (request_adapter-AdapterLaws fields-FieldsLaws) lower same_lower
      inject (some (adding ∷ matching ∷ [])) (empty_heap, get_request.header) "host" refl

apply_response_protected_example :
    response_values fields "via"
      (apply_response matcher
        (response_adapter fields)
        lower
        inject_response
        (some (adding ∷ matching ∷ []))
        (empty_heap, short_response.header)).1.1
    ≡ []
unfolding values values_in
apply_response_protected_example =
    apply_response_protected matcher (response_adapter-AdapterLaws fields-FieldsLaws) lower
      same_lower inject_response (some (adding ∷ matching ∷ [])) (empty_heap, short_response.header)
      "via" refl

apply_request-Chosen_example :
    (chosen : List Rule) × Chosen Phase.request (disabled ∷ adding ∷ []) chosen
    × ((s : Heap × RequestHeader fields)
        → apply_request matcher
            (request_adapter fields)
            lower
            inject
            (some (disabled ∷ adding ∷ []))
            s
          ≡ apply_rules (unfiltered request_callbacks) chosen s)
apply_request-Chosen_example =
    apply_request-Chosen matcher (request_adapter fields) lower inject (disabled ∷ adding ∷ [])

evaluate_match-boolean_example :
    (value : Value quickjs) × (h : Heap) × (eval quickjs
        (record { native_handle = some 0 })
        "true"
        default_file_name
        empty_heap
      ≡ (ok value, h))
    × (is_bool quickjs value ≡ true)
    × ((to_bool quickjs value h).0 ≡ ok true)
evaluate_match-boolean_example =
    evaluate_match-boolean quickjs (record { script_context = record { native_handle = some 0 } })
      "true" empty_heap true
      (unfold evaluate_match evaluated eval eval_result adopt is_bool to_bool in refl)
