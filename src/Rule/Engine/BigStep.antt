-- ===== src/Rule/Engine/BigStep.antt =====
-- The execution of rules as a relation: `Runs rules s r t` says that the rules, started in the state
-- `s`, end with the result `r` in the state `t`.
use proxypp.Prelude.{
  ◌≡◌, refl, ap, subst, ◌∙◌, ◌↔◌, ◌⊎◌, inl, inr, true, false, none, some, List, [], ◌∷◌, Bool-cases,
  Option-cases,
}
use proxypp.Error.{Error, Result, ok, err}
use proxypp.Rule.Engine.{
  execute_actions, Callbacks, if_matched, in_context, apply_accepted, apply_rule, apply_rules,
}

-- A result with its state, by its two cases.
result-cases :
    {S A : Type 0} (x : Result A × S)
    → ((a : A) × (s : S) × (x ≡ (ok a, s))) ⊎ ((e : Error) × (s : S) × (x ≡ (err e, s)))
result-cases (ok a, s) = inl (a, s, refl)
result-cases (err e, s) = inr (e, s, refl)

module _ {S Rule Action Match Context : Type 0} (cb : Callbacks S Rule Action Match Context) where
  -- Actions run one after the other, up to the first that fails.
  pub data RunsActions : List Action → S → Result (Unit {0}) → S → Type 0 where
    no_action : {s : S} → RunsActions [] s (ok tt) s
    action_fails :
        {action : Action} {actions : List Action} {s t : S} {e : Error}
        → cb.execute_action action s ≡ (err e, t)
        → RunsActions (action ∷ actions) s (err e) t
    action_succeeds :
        {action : Action} {actions : List Action} {s t u : S} {r : Result (Unit {0})}
        → cb.execute_action action s ≡ (ok tt, t)
        → RunsActions actions t r u
        → RunsActions (action ∷ actions) s r u

  -- A context that is made for a rule with a match expression, and the state with it.
  pub record Opened (rule : Rule) (s : S) (match : Match) (context : Context) (t : S) : Type 0 where
    pub is_accepted : cb.filter_rule rule ≡ true
    pub has_match : cb.get_match rule ≡ some match
    pub is_created : cb.create_context s ≡ (ok context, t)

  -- A rule: every way on which its execution ends. Once a context is made, it is destroyed on each.
  pub data RunsRule (rule : Rule) : S → Result (Unit {0}) → S → Type 0 where
    refused : {s : S} → cb.filter_rule rule ≡ false → RunsRule rule s (ok tt) s
    unconditional :
        {s t : S} {r : Result (Unit {0})}
        → cb.filter_rule rule ≡ true
        → cb.get_match rule ≡ none
        → RunsActions (cb.get_actions rule) s r t
        → RunsRule rule s r t
    not_created :
        {s t : S} {e : Error} (match : Match)
        → cb.filter_rule rule ≡ true
        → cb.get_match rule ≡ some match
        → cb.create_context s ≡ (err e, t)
        → RunsRule rule s (err e) t
    not_injected :
        {s t u : S} {e : Error} (match : Match) (context : Context)
        → Opened rule s match context t
        → cb.inject_context context t ≡ (err e, u)
        → RunsRule rule s (err e) (cb.destroy_context context u)
    not_evaluated :
        {s t u v : S} {e : Error} (match : Match) (context : Context)
        → Opened rule s match context t
        → cb.inject_context context t ≡ (ok tt, u)
        → cb.evaluate_match context match u ≡ (err e, v)
        → RunsRule rule s (err e) (cb.destroy_context context v)
    not_matched :
        {s t u v : S} (match : Match) (context : Context)
        → Opened rule s match context t
        → cb.inject_context context t ≡ (ok tt, u)
        → cb.evaluate_match context match u ≡ (ok false, v)
        → RunsRule rule s (ok tt) (cb.destroy_context context v)
    matched :
        {s t u v w : S} {r : Result (Unit {0})} (match : Match) (context : Context)
        → Opened rule s match context t
        → cb.inject_context context t ≡ (ok tt, u)
        → cb.evaluate_match context match u ≡ (ok true, v)
        → RunsActions (cb.get_actions rule) v r w
        → RunsRule rule s r (cb.destroy_context context w)

  -- Rules, one after the other, up to the first that fails.
  pub data Runs : List Rule → S → Result (Unit {0}) → S → Type 0 where
    no_rule : {s : S} → Runs [] s (ok tt) s
    rule_fails :
        {rule : Rule} {rules : List Rule} {s t : S} {e : Error}
        → RunsRule rule s (err e) t
        → Runs (rule ∷ rules) s (err e) t
    rule_succeeds :
        {rule : Rule} {rules : List Rule} {s t u : S} {r : Result (Unit {0})}
        → RunsRule rule s (ok tt) t
        → Runs rules t r u
        → Runs (rule ∷ rules) s r u

  -- What the functions do, in the relation.
  execute_actions-Runs :
      (actions : List Action) (s : S)
      → let x = execute_actions cb.execute_action actions s in RunsActions actions s x.0 x.1
  unfolding execute_actions
  execute_actions-Runs [] s = no_action
  execute_actions-Runs (action ∷ actions) s = elim (result-cases (cb.execute_action action s)) [
    | inl (_, t, e) ↦ rw e (action_succeeds e (execute_actions-Runs actions t))
    | inr (_, t, e) ↦ rw e (action_fails e)
  ]

  in_context-Runs :
      (rule : Rule) (s t : S) (match : Match) (context : Context)
      → Opened rule s match context t
      → let x = in_context cb context rule match t in
        RunsRule rule s x.0 (cb.destroy_context context x.1)
  unfolding in_context if_matched
  in_context-Runs rule s t match context opened =
      elim (result-cases (cb.inject_context context t)) [
        | inr (_, u, failed) ↦ rw failed (not_injected match context opened failed)
        | inl (_, u, injected) ↦ elim (result-cases (cb.evaluate_match context match u)) [
          | inr (_, v, failed) ↦
              rw (injected, failed) (not_evaluated match context opened injected failed)
          | inl (b, v, evaluated) ↦ elim (Bool-cases b) [
            | inl holds ↦
                let matches : cb.evaluate_match context match u ≡ (ok true, v) =
                  evaluated ∙ ap (λ z. (ok z, v)) holds in
                rw (injected, matches)
                  (matched match context opened injected matches
                    (execute_actions-Runs (cb.get_actions rule) v))
            | inr fails ↦
                let differs : cb.evaluate_match context match u ≡ (ok false, v) =
                  evaluated ∙ ap (λ z. (ok z, v)) fails in
                rw (injected, differs) (not_matched match context opened injected differs)
          ]
        ]
      ]

  apply_accepted-Runs :
      (rule : Rule) (s : S)
      → cb.filter_rule rule ≡ true
      → let x = apply_accepted cb rule (cb.get_match rule) s in RunsRule rule s x.0 x.1
  unfolding apply_accepted
  apply_accepted-Runs rule s accepted = elim (Option-cases (cb.get_match rule)) [
    | inl no_match ↦
        rw no_match (unconditional accepted no_match (execute_actions-Runs (cb.get_actions rule) s))
    | inr (match, with_match) ↦ elim (result-cases (cb.create_context s)) [
      | inr (_, t, failed) ↦ rw (with_match, failed) (not_created match accepted with_match failed)
      | inl (context, t, created) ↦
          let opened : Opened rule s match context t = record {
            is_accepted = accepted;
            has_match = with_match;
            is_created = created;
          } in
          rw (with_match, created) (in_context-Runs rule s t match context opened)
    ]
  ]

  apply_rule-Runs : (rule : Rule) (s : S) → let x = apply_rule cb rule s in RunsRule rule s x.0 x.1
  unfolding apply_rule
  apply_rule-Runs rule s = elim (Bool-cases (cb.filter_rule rule)) [
    | inl accepted ↦ rw accepted (apply_accepted-Runs rule s accepted)
    | inr other ↦ rw other (refused other)
  ]

  apply_rules-Runs :
      (rules : List Rule) (s : S) → let x = apply_rules cb rules s in Runs rules s x.0 x.1
  unfolding apply_rules
  apply_rules-Runs [] s = no_rule
  apply_rules-Runs (rule ∷ rules) s =
      let ran = apply_rule-Runs rule s in
      elim (result-cases (apply_rule cb rule s)) [
        | inl (_, t, e) ↦ rw e (rule_succeeds (rw e at ran) (apply_rules-Runs rules t))
        | inr (_, t, e) ↦ rw e (rule_fails (rw e at ran))
      ]

  -- What the relation says, the functions do.
  Runs-execute_actions :
      (actions : List Action) (s t : S) (r : Result (Unit {0}))
      → RunsActions actions s r t
      → execute_actions cb.execute_action actions s ≡ (r, t)
  unfolding execute_actions
  Runs-execute_actions _ s _ _ no_action = refl
  Runs-execute_actions _ s t _ (action_fails e) = rw e refl
  Runs-execute_actions (action ∷ actions) s u r (action_succeeds {t = t} e more) =
      rw e (Runs-execute_actions actions t u r more)

  Runs-apply_rule :
      (rule : Rule) (s t : S) (r : Result (Unit {0}))
      → RunsRule rule s r t
      → apply_rule cb rule s ≡ (r, t)
  unfolding apply_rule apply_accepted in_context if_matched
  Runs-apply_rule rule s _ _ (refused other) = rw other refl
  Runs-apply_rule rule s t r (unconditional accepted no_match ran) =
      rw (accepted, no_match) (Runs-execute_actions (cb.get_actions rule) s t r ran)
  Runs-apply_rule rule s _ _ (not_created match accepted with_match failed) =
      rw (accepted, with_match, failed) refl
  Runs-apply_rule rule s _ _ (not_injected match context o failed) =
      rw (o.is_accepted, o.has_match, o.is_created, failed) refl
  Runs-apply_rule rule s _ _ (not_evaluated match context o injected failed) =
      rw (o.is_accepted, o.has_match, o.is_created, injected, failed) refl
  Runs-apply_rule rule s _ _ (not_matched match context o injected differs) =
      rw (o.is_accepted, o.has_match, o.is_created, injected, differs) refl
  Runs-apply_rule rule s _ r (matched {v = v} {w = w} match context o injected matches ran) =
      rw (o.is_accepted, o.has_match, o.is_created, injected, matches)
        (ap (λ (x : Result (Unit {0}) × S). (x.0, cb.destroy_context context x.1))
          (Runs-execute_actions (cb.get_actions rule) v w r ran))

  Runs-apply_rules :
      (rules : List Rule) (s t : S) (r : Result (Unit {0}))
      → Runs rules s r t
      → apply_rules cb rules s ≡ (r, t)
  unfolding apply_rules
  Runs-apply_rules _ s _ _ no_rule = refl
  Runs-apply_rules (rule ∷ rules) s t _ (rule_fails {e = e} ran) =
      rw (Runs-apply_rule rule s t (err e) ran) refl
  Runs-apply_rules (rule ∷ rules) s u r (rule_succeeds {t = t} ran more) =
      rw (Runs-apply_rule rule s t (ok tt) ran) (Runs-apply_rules rules t u r more)

  -- ApplyRules ends with a result in a state exactly where the relation says so: a rule that the
  -- filter refuses does nothing; an accepted rule without a match expression runs its actions up to
  -- the first that fails; one with a match expression does so in a context of its own, only if the
  -- expression evaluates to true, and the context is destroyed on every path after its creation;
  -- and the first rule that fails, by its context, its expression or an action, ends the execution
  -- with its error, so that no later rule runs.
  pub apply_rules_iff :
      (rules : List Rule) (s t : S) (r : Result (Unit {0}))
      → (apply_rules cb rules s ≡ (r, t)) ↔ Runs rules s r t
  apply_rules_iff rules s t r = (
    λ e. subst (λ (x : Result (Unit {0}) × S). Runs rules s x.0 x.1) e (apply_rules-Runs rules s),
    Runs-apply_rules rules s t r,
  )
