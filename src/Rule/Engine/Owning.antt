-- ===== src/Rule/Engine/Owning.antt =====
-- What the contexts of the rules hold is given back, whatever the rules do.
use proxypp.Prelude.{
  ℕ, inl, inr, Bool, true, false, Option, none, some, List, [], ◌∷◌, arith, Bool-cases,
}
use proxypp.Script.Quickjs.{Counters, Ledger}
use proxypp.Script.Ledger.{
  finally-Accounts, Accounts, recount-Accounts, bind-Accounts, pure-Accounts,
}
use proxypp.Rule.Engine.{
  execute_actions, Callbacks, if_matched, in_context, apply_accepted, apply_rule, apply_rules,
}

module _ {S Rule Action Match Context : Type 0} (cb : Callbacks S Rule Action Match Context)
    (C : Counters S) (weight : Context → ℕ) (create : Accounts C cb.create_context 0 weight)
    (inject : (context : Context) → Accounts C (cb.inject_context context) 0 (λ _. 0))
    (evaluate : (context : Context) (match : Match)
      → Accounts C (cb.evaluate_match context match) 0 (λ _. 0))
    (execute : (action : Action) → Accounts C (cb.execute_action action) 0 (λ _. 0))
    (destroy : (context : Context) (s : S)
      → Ledger C s (cb.destroy_context context s) (weight context) 0) where
  execute_actions-Accounts :
      (actions : List Action) → Accounts C (execute_actions cb.execute_action actions) 0 (λ _. 0)
  unfolding execute_actions
  execute_actions-Accounts [] = pure-Accounts C tt
  execute_actions-Accounts (action ∷ actions) =
      bind-Accounts C _ (execute action) λ _. execute_actions-Accounts actions

  if_matched-Accounts :
      (rule : Rule) (matched : Bool) → Accounts C (if_matched cb rule matched) 0 (λ _. 0)
  unfolding if_matched
  if_matched-Accounts rule true = execute_actions-Accounts (cb.get_actions rule)
  if_matched-Accounts rule false = pure-Accounts C tt

  in_context-Accounts :
      (context : Context) (rule : Rule) (match : Match)
      → Accounts C (in_context cb context rule match) 0 (λ _. 0)
  unfolding in_context
  in_context-Accounts context rule match =
      bind-Accounts C _ (inject context)
        λ _. bind-Accounts C _ (evaluate context match) (if_matched-Accounts rule)

  apply_accepted-Accounts :
      (rule : Rule) (match : Option Match) → Accounts C (apply_accepted cb rule match) 0 (λ _. 0)
  unfolding apply_accepted
  apply_accepted-Accounts rule none = execute_actions-Accounts (cb.get_actions rule)
  apply_accepted-Accounts rule (some match) = bind-Accounts C _ create λ context.
      recount-Accounts C
        (finally-Accounts C (cb.destroy_context context) 0 (weight context)
          (in_context-Accounts context rule match) (destroy context))
        (omega arith)

  apply_rule-Accounts : (rule : Rule) → Accounts C (apply_rule cb rule) 0 (λ _. 0)
  unfolding apply_rule
  apply_rule-Accounts rule = record {
    ledger = λ s. elim (Bool-cases (cb.filter_rule rule)) [
      | inl accepted ↦ rw accepted ((apply_accepted-Accounts rule (cb.get_match rule)).ledger s)
      | inr refused ↦ rw refused (omega arith)
    ];
  }

  pub apply_rules-Accounts : (rules : List Rule) → Accounts C (apply_rules cb rules) 0 (λ _. 0)
  unfolding apply_rules
  apply_rules-Accounts [] = pure-Accounts C tt
  apply_rules-Accounts (rule ∷ rules) =
      bind-Accounts C _ (apply_rule-Accounts rule) λ _. apply_rules-Accounts rules
