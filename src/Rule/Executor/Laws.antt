-- ===== src/Rule/Executor/Laws.antt =====
-- What an action does to the header, and what it leaves alone.
use proxypp.Prelude.{
  String, ◌≡◌, refl, sym, ap, ◌∙◌, ◌⊎◌, inl, inr, Bool, true, false, Option, none, some, List, [],
  ◌∷◌, arith, if◌then◌else◌, Bool-cases, Option-cases, contains,
}
use mathlib.Core.Bool.{false≢true}
use proxypp.Error.{Error, Code, invalid_action, make_error, Result, ok, err}
use proxypp.Rule.Model.{Op, Target, ActionData, header_name, header_name_value, Action}
use proxypp.Rule.Adapter.{Adapter, AdapterLaws, add_values, replace_values}
use proxypp.Rule.Executor.{
  invalid, data_name, is_header, is_unsupported, execute_op, execute_action, unsupported_headers,
}

-- The operation and its data, as a change of the values of the header that the data name; `none`
-- where the two do not fit.
abbrev pub effect : Op → ActionData → Option (List String → List String)
effect Op.add (header_name_value name value) = some (add_values value)
effect Op.set (header_name_value name value) = some (λ _. value ∷ [])
effect Op.replace (header_name_value name value) = some (replace_values value)
effect Op.remove (header_name name) = some (λ _. [])
effect Op.add (header_name name) = none
effect Op.set (header_name name) = none
effect Op.replace (header_name name) = none
effect Op.remove (header_name_value name value) = none
effect Op.not_set d = none

-- The actions that may run: those on a header that is not protected, with data that fit.
pub record IsAllowed (to_lower : String → String) (action : Action)
    (change : List String → List String) : Type 0 where
  pub target : action.target ≡ Target.header
  pub supported : is_unsupported to_lower (data_name action.action_data) ≡ false
  pub fits : effect action.op action.action_data ≡ some change

header_of_test : (t : Target) → is_header t ≡ true → t ≡ Target.header
header_of_test Target.header e = refl
header_of_test Target.not_set e = cc

invalid-code : (message : String) → (invalid message).code ≡ Code.rule invalid_action
unfolding invalid make_error
invalid-code message = ground arith

-- The other actions are refused with this code, and change nothing.
abbrev pub Refuses : {A : Type 0} → Result (Unit {0}) × A → A → Type 0
Refuses r a = (e : Error) × (r ≡ (err e, a)) × (e.code ≡ Code.rule invalid_action)

module _ {A : Type 0} (ops : Adapter A) (to_lower : String → String) where
  execute_op-none :
      (op : Op) (d : ActionData) (a : A) → effect op d ≡ none → Refuses (execute_op ops op d a) a
  unfolding execute_op
  execute_op-none Op.add (header_name_value name value) a e = cc
  execute_op-none Op.add (header_name name) a e = (_, refl, invalid-code _)
  execute_op-none Op.set (header_name_value name value) a e = cc
  execute_op-none Op.set (header_name name) a e = (_, refl, invalid-code _)
  execute_op-none Op.replace (header_name_value name value) a e = cc
  execute_op-none Op.replace (header_name name) a e = (_, refl, invalid-code _)
  execute_op-none Op.remove (header_name_value name value) a e = (_, refl, invalid-code _)
  execute_op-none Op.remove (header_name name) a e = cc
  execute_op-none Op.not_set d a e = (_, refl, invalid-code _)

  Allowed-cases :
      (action : Action) (a : A)
      → ((change : List String → List String) × IsAllowed to_lower action change)
        ⊎ Refuses (execute_action ops to_lower action a) a
  unfolding execute_action
  Allowed-cases action a = elim (Bool-cases (is_header action.target)) [
    | inr other ↦ inr (rw other (_, refl, invalid-code _))
    | inl header ↦ elim (Bool-cases (is_unsupported to_lower (data_name action.action_data))) [
      | inl protected ↦ inr (rw (header, protected) (_, refl, invalid-code _))
      | inr free ↦ elim (Option-cases (effect action.op action.action_data)) [
        | inl unfit ↦ inr (rw (header, free) (execute_op-none action.op action.action_data a unfit))
        | inr (change, fit) ↦ inl (
          change,
          record { target = header_of_test action.target header; supported = free; fits = fit },
        )
      ]
    ]
  ]

  -- An action that is not allowed is refused as an invalid action, and changes nothing.
  pub execute_action_refused :
      (action : Action) (a : A)
      → ((change : List String → List String) → ¬ IsAllowed to_lower action change)
      → Refuses (execute_action ops to_lower action a) a
  execute_action_refused action a never = elim (Allowed-cases action a) [
    | inl (change, allowed) ↦ absurd (never change allowed)
    | inr refuses ↦ refuses
  ]

module _ {A : Type 0} {ops : Adapter A} {same : String → String → Bool}
    {values : String → A → List String} (L : AdapterLaws ops same values) where
  execute_op-effect :
      (op : Op) (d : ActionData) (a : A) (change : List String → List String)
      → effect op d ≡ some change
      → ((execute_op ops op d a).0 ≡ ok tt)
        × ((m : String)
            → values m (execute_op ops op d a).1
              ≡ (if same (data_name d) m then change (values m a) else values m a))
  unfolding execute_op
  execute_op-effect Op.add (header_name_value n v) a change e =
      (refl, λ m. ground (arith, L.values-add n m v a))
  execute_op-effect Op.set (header_name_value n v) a change e =
      (refl, λ m. ground (arith, L.values-set n m v a))
  execute_op-effect Op.replace (header_name_value n v) a change e =
      (refl, λ m. ground (arith, L.values-replace n m v a))
  execute_op-effect Op.remove (header_name n) a change e =
      (refl, λ m. ground (arith, L.values-remove n m a))
  execute_op-effect Op.add (header_name n) a change e = cc
  execute_op-effect Op.set (header_name n) a change e = cc
  execute_op-effect Op.replace (header_name n) a change e = cc
  execute_op-effect Op.remove (header_name_value n v) a change e = cc
  execute_op-effect Op.not_set d a change e = cc

  -- An action on a header that is not protected, with data that fit its operation, succeeds; it
  -- changes the values of that header, under every name that compares equal, as the operation
  -- says, and the values of no other header.
  pub execute_action_allowed :
      (to_lower : String → String) (action : Action) (change : List String → List String) (a : A)
      → IsAllowed to_lower action change
      → ((execute_action ops to_lower action a).0 ≡ ok tt)
        × ((m : String)
            → values m (execute_action ops to_lower action a).1
              ≡ (if same (data_name action.action_data) m then change (values m a) else values m a))
  unfolding execute_action
  execute_action_allowed to_lower action change a h =
      rw (h.target, h.supported) (execute_op-effect action.op action.action_data a change h.fits)

  -- Whatever an action is and whether it succeeds, the values of a protected header stay as they
  -- are, if names that compare equal have the same lower case.
  pub execute_action_protected :
      (to_lower : String → String)
      → ((n m : String) → same n m ≡ true → to_lower n ≡ to_lower m)
      → (action : Action) (a : A) (m : String) → is_unsupported to_lower m ≡ true
      → values m (execute_action ops to_lower action a).1 ≡ values m a
  execute_action_protected to_lower fold action a m protected =
      elim (Allowed-cases ops to_lower action a) [
        | inr (e, refuses, _) ↦ rw refuses refl
        | inl (change, allowed) ↦
            let name = data_name action.action_data in
            elim (Bool-cases (same name m)) [
              | inl hit ↦ absurd (
                  false≢true (
                    sym allowed.supported
                    ∙ ap (contains unsupported_headers) (fold name m hit)
                    ∙ protected))
              | inr miss ↦
                  (execute_action_allowed to_lower action change a allowed).1 m ∙ rw miss refl
            ]
      ]
