-- ===== src/Rule/Json.antt =====
-- The conversion of an action from JSON: src/proxypp/rule/http/model.h, json_type_traits of Action.
pub mod Laws
use proxypp.Prelude.{
  ℕ, zero, suc, ◌+◌, ◌-◌, ◌*◌, ◌/◌, ◌%◌, ◌^◌, ◌≤◌, ◌<◌, min, String, ◌≡◌, refl, sym, ap, subst, ◌∙◌,
  ◌≡⟨◌⟩◌, ◌∎, ◌≢◌, ◌↔◌, ◌⊎◌, inl, inr, Bool, true, false, not, ◌&&◌, ◌||◌, Option, none, some, List,
  [], ◌∷◌, ◌++◌, map, append-nil, append_assoc, arith, eq_iff, ltb, leb, ◌==◌, str_eq,
  if◌then◌else◌, ltb→lt, lt→ltb, ==_iff, Bool-cases, Option-cases, length, take, drop, All,
  length-append, take-append-drop, length-take, length-drop, take-length, drop-length, filter,
  contains,
}
use proxypp.Rule.Model.{Op, Target, ActionData, header_name, header_name_value, Action}

-- What the code reads of a JSON value, and the traits that jsoncons generates for the other types;
-- `none` is an exception.
pub record JsonTraits : Type 1 where
  pub Json : Type 0
  pub is_object : Json → Bool
  pub contains : String → Json → Bool
  pub at : String → Json → Option Json
  pub as_op : Json → Option Op
  pub as_target : Json → Option Target
  pub as_header_name : Json → Option String
  pub as_header_name_value : Json → Option (String × String)

infixl 5 ◌>>=◌
abbrev pub ◌>>=◌ : {A B : Type 0} → Option A → (A → Option B) → Option B
none >>= f = none
some a >>= f = f a

module _ (J : JsonTraits) where
  -- is
  pub is_action : J.Json → Bool
  is_action j =
      J.is_object j && (J.contains "op" j && (J.contains "target" j && J.contains "data" j))

  pub as_name_value : J.Json → Option ActionData
  as_name_value j =
      J.as_header_name_value j >>= λ (name, value). some (header_name_value name value)

  unfoldable pub as_name : J.Json → Option ActionData
  as_name j = J.as_header_name j >>= λ name. some (header_name name)

  -- The data of an action on a header, by its operation.
  unfoldable pub header_data : Op → J.Json → Option ActionData
  header_data Op.add j = as_name_value j
  header_data Op.set j = as_name_value j
  header_data Op.replace j = as_name_value j
  header_data Op.remove j = as_name j
  header_data Op.not_set j = none

  unfoldable pub action_data_of : Op → Target → J.Json → Option ActionData
  action_data_of op Target.header j = header_data op j
  action_data_of op Target.not_set j = none

  -- as
  unfoldable pub as_action : J.Json → Option Action
  as_action j = do
    op_json ← J.at "op" j
    op ← J.as_op op_json
    target_json ← J.at "target" j
    target ← J.as_target target_json
    data_json ← J.at "data" j
    action_data ← action_data_of op target data_json
    some (record { op = op; target = target; action_data = action_data })
