-- ===== src/Examples/Conversion.antt =====
-- The conversion of an action from JSON.
use proxypp.Prelude.{
  String, ◌≡◌, refl, true, Option, none, some, List, [], ◌∷◌, str_eq, if◌then◌else◌,
}
use proxypp.Rule.Model.{Op, Target, header_name, Action}
use proxypp.Rule.Json.{JsonTraits, as_name, header_data, action_data_of, as_action}
use proxypp.Rule.Json.Laws.{as_action-IsAllowed}
use proxypp.Rule.Executor.Laws.{IsAllowed}

-- An object with string members: the name of the operation, and the header.
abbrev Members : Type 0
Members = List (String × String)

abbrev member : String → Members → Option Members
member key [] = none
member key ((k, v) ∷ rest) = if str_eq k key then some ((k, v) ∷ []) else member key rest

abbrev first_value : Members → Option String
first_value [] = none
first_value ((k, v) ∷ rest) = some v

abbrev op_named : Option String → Option Op
op_named none = none
op_named (some name) = if str_eq name "remove" then some Op.remove else none

abbrev json : JsonTraits
json = record {
  Json = Members;
  is_object = λ j. true;
  contains = λ key j. true;
  at = member;
  as_op = λ j. op_named (first_value j);
  as_target = λ j. some Target.header;
  as_header_name = first_value;
  as_header_name_value = λ j. none;
}

abbrev remove_json : Members
remove_json = ("op", "remove") ∷ ("target", "header") ∷ ("data", "x-a") ∷ []

abbrev remove_a : Action
remove_a = record { op = Op.remove; target = Target.header; action_data = header_name "x-a" }

converted : as_action json remove_json ≡ some remove_a
unfolding as_action action_data_of header_data as_name
converted = refl

as_action-IsAllowed_example :
    (change : List String → List String) × IsAllowed (λ name. name) remove_a change
as_action-IsAllowed_example =
    as_action-IsAllowed json (λ name. name) remove_json remove_a converted refl
