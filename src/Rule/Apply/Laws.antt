-- ===== src/Rule/Apply/Laws.antt =====
-- What the rules of a phase can do to a message.
use proxypp.Prelude.{
  String, ◌≡◌, refl, sym, ◌∙◌, Bool, true, false, ◌≢◌, ◌⊎◌, inl, inr, arith, Bool-cases, Option,
  none, some, List, [], ◌∷◌,
}
use proxypp.Error.{R}
use proxypp.Rule.Model.{Rule, Action, Phase, phase_eq}
use proxypp.Rule.Adapter.{Adapter, AdapterLaws}
use proxypp.Rule.Engine.{apply_rules}
use proxypp.Rule.Engine.Laws.{
  apply_rules-nil, apply_rules-Keeps, unfiltered, apply_rules-accepted, apply_rules-refused,
}
use proxypp.Rule.Executor.{is_unsupported, execute_action, execute_request_action}
use proxypp.Rule.Executor.Laws.{execute_action_protected}
use proxypp.Rule.Apply.{Matcher, in_phase, callbacks, apply_request, apply_response}

module _ (E : Matcher) {A : Type 0} {ops : Adapter A} {same : String → String → Bool}
    {values : String → A → List String} (L : AdapterLaws ops same values)
    (to_lower : String → String) (fold : (n m : String) → same n m ≡ true → to_lower n ≡ to_lower m)
    (inject : E.Context → A → R E.Runtime (Unit {0})) where
  callbacks_protected :
      (phase : Phase) (rules : List Rule) (s : E.Runtime × A) (m : String)
      → is_unsupported to_lower m ≡ true
      → values m (apply_rules (callbacks E phase inject (execute_action ops to_lower)) rules s).1.1
        ≡ values m s.1
  unfolding callbacks
  callbacks_protected phase rules s m protected =
      apply_rules-Keeps (callbacks E phase inject (execute_action ops to_lower))
        (λ t. values m t.1 ≡ values m s.1) (λ t h. h) (λ context t h. h) (λ context match t h. h)
        (λ action t h. execute_action_protected L to_lower fold action t.1 m protected ∙ h)
        (λ context t h. h) rules s refl

  -- Whatever rules are configured, and whether they succeed or fail, the rules of the request phase
  -- leave the values of every protected header of the request as they are.
  pub apply_request_protected :
      (rules : Option (List Rule)) (s : E.Runtime × A) (m : String)
      → is_unsupported to_lower m ≡ true
      → values m (apply_request E ops to_lower inject rules s).1.1 ≡ values m s.1
  unfolding apply_request
  apply_request_protected none s m protected = refl
  apply_request_protected (some []) s m protected = refl
  apply_request_protected (some (rule ∷ rules)) s m protected =
      callbacks_protected Phase.request (rule ∷ rules) s m protected

  -- So do the rules of the response phase with the response.
  pub apply_response_protected :
      (rules : Option (List Rule)) (s : E.Runtime × A) (m : String)
      → is_unsupported to_lower m ≡ true
      → values m (apply_response E ops to_lower inject rules s).1.1 ≡ values m s.1
  unfolding apply_response
  apply_response_protected none s m protected = refl
  apply_response_protected (some rules) s m protected =
      callbacks_protected Phase.response rules s m protected

-- The rules of a list that are enabled and of a phase, in their order.
pub data Chosen (phase : Phase) : List Rule → List Rule → Type 0 where
  nothing : Chosen phase [] []
  takes :
      {rule : Rule} {rules chosen : List Rule}
      → rule.enabled ≡ true
      → rule.phase ≡ phase
      → Chosen phase rules chosen
      → Chosen phase (rule ∷ rules) (rule ∷ chosen)
  leaves_disabled :
      {rule : Rule} {rules chosen : List Rule}
      → rule.enabled ≡ false
      → Chosen phase rules chosen
      → Chosen phase (rule ∷ rules) chosen
  leaves_phase :
      {rule : Rule} {rules chosen : List Rule}
      → rule.phase ≢ phase
      → Chosen phase rules chosen
      → Chosen phase (rule ∷ rules) chosen

phase_eq-true : (p q : Phase) → phase_eq p q ≡ true → p ≡ q
phase_eq-true Phase.not_set Phase.not_set e = refl
phase_eq-true Phase.request Phase.request e = refl
phase_eq-true Phase.response Phase.response e = refl
phase_eq-true _ _ e = cc

phase_eq-same : (p : Phase) → phase_eq p p ≡ true
phase_eq-same Phase.not_set = refl
phase_eq-same Phase.request = refl
phase_eq-same Phase.response = refl

phase_eq-false : (p q : Phase) → phase_eq p q ≡ false → p ≢ q
phase_eq-false p q e h = cc (phase_eq-same p)

-- What the filter of both functions says of a rule.
in_phase-cases :
    (phase : Phase) (rule : Rule)
    → ((in_phase phase rule ≡ true) × (rule.enabled ≡ true) × (rule.phase ≡ phase))
      ⊎ ((in_phase phase rule ≡ false) × ((rule.enabled ≡ false) ⊎ (rule.phase ≢ phase)))
in_phase-cases phase rule = elim (Bool-cases rule.enabled) [
  | inr disabled ↦ inr (ground arith, inl disabled)
  | inl enabled ↦ elim (Bool-cases (phase_eq rule.phase phase)) [
    | inl same ↦ inl (ground arith, enabled, phase_eq-true rule.phase phase same)
    | inr other ↦ inr (ground arith, inr (phase_eq-false rule.phase phase other))
  ]
]

module _ (E : Matcher) {A : Type 0} (phase : Phase)
    (inject : E.Context → A → R E.Runtime (Unit {0})) (execute : Action → R A (Unit {0})) where
  apply_rules-Chosen :
      (rules : List Rule)
      → (chosen : List Rule) × Chosen phase rules chosen
        × ((s : E.Runtime × A)
            → apply_rules (callbacks E phase inject execute) rules s
              ≡ apply_rules (unfiltered (callbacks E phase inject execute)) chosen s)
  unfolding callbacks
  apply_rules-Chosen [] = ([], nothing, λ s. apply_rules-nil _ s ∙ sym (apply_rules-nil _ s))
  apply_rules-Chosen (rule ∷ rules) =
      let cb = callbacks E phase inject execute in
      let (chosen, which, same) = apply_rules-Chosen rules in
      elim (in_phase-cases phase rule) [
        | inl (accepted, enabled, of_phase) ↦ (
          rule ∷ chosen,
          takes enabled of_phase which,
          λ s. apply_rules-accepted cb rule rules chosen accepted same s,
        )
        | inr (refused, inl disabled) ↦ (
          chosen,
          leaves_disabled disabled which,
          λ s. apply_rules-refused cb rule rules s refused ∙ same s,
        )
        | inr (refused, inr other) ↦ (
          chosen,
          leaves_phase other which,
          λ s. apply_rules-refused cb rule rules s refused ∙ same s,
        )
      ]

module _ (E : Matcher) {A : Type 0} (ops : Adapter A) (to_lower : String → String)
    (inject : E.Context → A → R E.Runtime (Unit {0})) where
  apply_request-rules :
      (rules : List Rule) (s : E.Runtime × A)
      → apply_request E ops to_lower inject (some rules) s
        ≡ apply_rules (callbacks E Phase.request inject (execute_action ops to_lower)) rules s
  unfolding apply_request
  apply_request-rules [] s = sym (apply_rules-nil _ s)
  apply_request-rules (rule ∷ rules) s = refl

  -- The rules of the request phase act as the engine without a filter does on some list of rules,
  -- namely on the rules that are enabled and of the request phase, in their order.
  pub apply_request-Chosen :
      (rules : List Rule)
      → (chosen : List Rule) × Chosen Phase.request rules chosen
        × ((s : E.Runtime × A)
            → apply_request E ops to_lower inject (some rules) s
              ≡ apply_rules
                  (unfiltered
                    (callbacks E Phase.request inject (execute_request_action ops to_lower)))
                  chosen
                  s)
  apply_request-Chosen rules =
      let (chosen, which, same) =
        apply_rules-Chosen E Phase.request inject (execute_action ops to_lower) rules in
      (chosen, which, λ s. apply_request-rules rules s ∙ same s)
