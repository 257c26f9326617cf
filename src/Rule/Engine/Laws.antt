-- ===== src/Rule/Engine/Laws.antt =====
-- How rules and actions follow one another.
use mathlib.Core.Path.{fun_ext}
use proxypp.Prelude.{
  ◌≡◌, refl, sym, ap, ◌∙◌, inl, inr, Bool, true, false, Option, none, some, List, [], ◌∷◌, ◌++◌,
  if◌then◌else◌, Bool-cases,
}
use proxypp.Error.{Result, ok, err, R, bind, ◌>>=◌, ◌>>◌, >>=-assoc, finally}
use proxypp.Rule.Engine.{
  execute_actions, Callbacks, if_matched, in_context, apply_accepted, apply_rule, apply_rules,
}

pub execute_actions-append :
    {S Action : Type 0} (exec : Action → R S (Unit {0})) (xs ys : List Action) (s : S)
    → execute_actions exec (xs ++ ys) s ≡ (execute_actions exec xs >> execute_actions exec ys) s
unfolding execute_actions
execute_actions-append exec [] ys s = refl
execute_actions-append exec (x ∷ xs) ys s =
    ap (λ (k : R _ (Unit {0})). (exec x >> k) s) (fun_ext (execute_actions-append exec xs ys))
    ∙ sym (>>=-assoc (exec x) (λ _. execute_actions exec xs) (λ _. execute_actions exec ys) s)

module _ {S Rule Action Match Context : Type 0} (cb : Callbacks S Rule Action Match Context) where
  pub apply_rules-nil : (s : S) → apply_rules cb [] s ≡ (ok tt, s)
  unfolding apply_rules
  apply_rules-nil s = refl

  skip_refused :
      (rule : Rule) (rules : List Rule) (s : S)
      → cb.filter_rule rule ≡ false
      → (apply_rule cb rule >> apply_rules cb rules) s ≡ apply_rules cb rules s
  unfolding apply_rule
  skip_refused rule rules s refused = rw refused refl

  -- The same callbacks without a filter.
  abbrev pub unfiltered : Callbacks S Rule Action Match Context
  unfiltered = record cb { filter_rule = λ rule. true }

  if_matched-unfiltered :
      (rule : Rule) (matched : Bool)
      → if_matched cb rule matched ≡ if_matched unfiltered rule matched
  unfolding if_matched
  if_matched-unfiltered rule true = refl
  if_matched-unfiltered rule false = refl

  apply_accepted-unfiltered :
      (rule : Rule) (match : Option Match) (s : S)
      → apply_accepted cb rule match s ≡ apply_accepted unfiltered rule match s
  unfolding apply_accepted in_context if_matched
  apply_accepted-unfiltered rule none s = refl
  apply_accepted-unfiltered rule (some match) s =
      ap
        (λ (k : (rule : Rule) → Bool → R S (Unit {0})).
          (cb.create_context >>= λ context.
          finally (cb.destroy_context context)
            (cb.inject_context context >> (cb.evaluate_match context match >>= k rule)))
            s)
        (fun_ext λ rule. fun_ext λ b. if_matched-unfiltered rule b)

  -- A rule that the filter accepts is applied as without the filter, and a refused one not at all.
  pub apply_rules-accepted :
      (rule : Rule) (rules chosen : List Rule)
      → cb.filter_rule rule ≡ true
      → ((s : S) → apply_rules cb rules s ≡ apply_rules unfiltered chosen s)
      → (s : S) → apply_rules cb (rule ∷ rules) s ≡ apply_rules unfiltered (rule ∷ chosen) s
  unfolding apply_rules apply_rule
  apply_rules-accepted rule rules chosen accepted h s =
      rw (accepted, apply_accepted-unfiltered rule (cb.get_match rule) s)
        (ap (λ (k : R S (Unit {0})). (apply_accepted unfiltered rule (cb.get_match rule) >> k) s)
          (fun_ext h))

  pub apply_rules-refused :
      (rule : Rule) (rules : List Rule) (s : S)
      → cb.filter_rule rule ≡ false
      → apply_rules cb (rule ∷ rules) s ≡ apply_rules cb rules s
  unfolding apply_rules
  apply_rules-refused rule rules s refused = skip_refused rule rules s refused

  -- The actions of the accepted rules, one rule after the other.
  abbrev pub all_actions : List Rule → List Action
  all_actions [] = []
  all_actions (rule ∷ rules) =
      if cb.filter_rule rule then cb.get_actions rule ++ all_actions rules else all_actions rules

-- What every callback keeps, the engine keeps, whether it succeeds or fails.
module _ {S Rule Action Match Context : Type 0} (cb : Callbacks S Rule Action Match Context)
    (P : S → Type 0) where
  abbrev pub Keeps : {A : Type 0} → R S A → Type 0
  Keeps m = (s : S) → P s → P (m s).1

  >>=-Keeps :
      {A B : Type 0} (m : R S A) (f : A → R S B)
      → Keeps m
      → ((a : A) → Keeps (f a))
      → Keeps (m >>= f)
  >>=-Keeps m f h k s p = go (m s).0 (m s).1 (h s p)
    where
      go : (r : Result _) (t : S) → P t → P (bind r t f).1
      go (ok a) t q = k a t q
      go (err e) t q = q

  execute_actions-Keeps :
      (actions : List Action)
      → ((action : Action) → Keeps (cb.execute_action action))
      → Keeps (execute_actions cb.execute_action actions)
  unfolding execute_actions
  execute_actions-Keeps [] h s p = p
  execute_actions-Keeps (action ∷ actions) h s p =
      >>=-Keeps (cb.execute_action action) (λ _. execute_actions cb.execute_action actions)
        (h action) (λ _. execute_actions-Keeps actions h) s p

  module _ (create : Keeps cb.create_context)
      (inject : (context : Context) → Keeps (cb.inject_context context))
      (evaluate : (context : Context) (match : Match) → Keeps (cb.evaluate_match context match))
      (execute : (action : Action) → Keeps (cb.execute_action action))
      (destroy : (context : Context) (s : S) → P s → P (cb.destroy_context context s)) where
    if_matched-Keeps : (rule : Rule) (matched : Bool) → Keeps (if_matched cb rule matched)
    unfolding if_matched
    if_matched-Keeps rule true s p = execute_actions-Keeps (cb.get_actions rule) execute s p
    if_matched-Keeps rule false s p = p

    in_context-Keeps :
        (context : Context) (rule : Rule) (match : Match) → Keeps (in_context cb context rule match)
    unfolding in_context
    in_context-Keeps context rule match =
        >>=-Keeps (cb.inject_context context) _ (inject context) λ _.
          >>=-Keeps (cb.evaluate_match context match) _ (evaluate context match)
            (if_matched-Keeps rule)

    apply_accepted-Keeps :
        (rule : Rule) (match : Option Match) → Keeps (apply_accepted cb rule match)
    unfolding apply_accepted
    apply_accepted-Keeps rule none = execute_actions-Keeps (cb.get_actions rule) execute
    apply_accepted-Keeps rule (some match) =
        >>=-Keeps cb.create_context _ create
          λ context s p. destroy context _ (in_context-Keeps context rule match s p)

    apply_rule-Keeps : (rule : Rule) → Keeps (apply_rule cb rule)
    unfolding apply_rule
    apply_rule-Keeps rule s p = elim (Bool-cases (cb.filter_rule rule)) [
      | inl accepted ↦ rw accepted (apply_accepted-Keeps rule (cb.get_match rule) s p)
      | inr refused ↦ rw refused p
    ]

    -- What the creation, the filling and the destruction of a context, the evaluation of a match
    -- and each action keep, an application of rules keeps, whether it succeeds or fails.
    pub apply_rules-Keeps : (rules : List Rule) → Keeps (apply_rules cb rules)
    unfolding apply_rules
    apply_rules-Keeps [] s p = p
    apply_rules-Keeps (rule ∷ rules) s p =
        >>=-Keeps (apply_rule cb rule) (λ _. apply_rules cb rules) (apply_rule-Keeps rule)
          (λ _. apply_rules-Keeps rules) s p
