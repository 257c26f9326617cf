-- ===== src/Rule/Scripting/Laws.antt =====
-- What decides whether a rule matches.
use proxypp.Prelude.{String, ◌≡◌, refl, sym, ap, ◌∙◌, inl, inr, Bool, true, false, Bool-cases}
use proxypp.Error.{Error, Result, ok, err, replaced, R, bind}
use proxypp.Script.Quickjs.{Quickjs}
use proxypp.Script.Value.{Value, is_bool}
use proxypp.Script.Value.Convert.{to_bool}
use proxypp.Script.Evaluator.{eval, default_file_name}
use proxypp.Rule.MatchContext.{MatchContext}
use proxypp.Rule.Scripting.{evaluation_error, not_boolean_error, evaluated, evaluate_match}

module _ (Q : Quickjs) where
  replaced-ok :
      {A : Type 0} (f : Error → Error) (r : Result A) (a : A) → replaced f r ≡ ok a → r ≡ ok a
  replaced-ok f (ok b) a e = e
  replaced-ok f (err s) a e = cc

  evaluated_other :
      (expr : String) (value : Value Q) (h : Q.Heap)
      → is_bool Q value ≡ false
      → (evaluated Q expr value h).0 ≡ err (not_boolean_error expr)
  unfolding evaluated
  evaluated_other expr value h other = rw other refl

  evaluated_boolean :
      (expr : String) (value : Value Q) (h : Q.Heap)
      → is_bool Q value ≡ true
      → (evaluated Q expr value h).0
        ≡ replaced
            (evaluation_error "failed to convert match expression result to boolean" expr)
            (to_bool Q value h).0
  unfolding evaluated
  evaluated_boolean expr value h boolean = rw boolean refl

  evaluated-boolean :
      (expr : String) (value : Value Q) (h : Q.Heap) (b : Bool)
      → (evaluated Q expr value h).0 ≡ ok b
      → (is_bool Q value ≡ true) × ((to_bool Q value h).0 ≡ ok b)
  evaluated-boolean expr value h b e = elim (Bool-cases (is_bool Q value)) [
    | inl boolean ↦ (boolean, replaced-ok _ _ b (sym (evaluated_boolean expr value h boolean) ∙ e))
    | inr other ↦
        let absurd : Path (Result Bool) (err (not_boolean_error expr)) (ok b) =
          sym (evaluated_other expr value h other) ∙ e in
        cc
  ]

  bound :
      {A B : Type 0} (r : Result A) (h : Q.Heap) (f : A → R Q.Heap B) (b : B)
      → (bind r h f).0 ≡ ok b
      → (a : A) × (r ≡ ok a) × ((f a h).0 ≡ ok b)
  bound (ok a) h f b e = (a, refl, e)
  bound (err s) h f b e = cc

  -- A match expression has a result only if the script evaluates it to a Boolean, and the result is
  -- this Boolean: no other value is taken for true or false.
  pub evaluate_match-boolean :
      (context : MatchContext Q) (expr : String) (h : Q.Heap) (b : Bool)
      → (evaluate_match Q context expr h).0 ≡ ok b
      → (value : Value Q) × (h' : Q.Heap) × (eval Q context.script_context expr default_file_name h
          ≡ (ok value, h'))
        × (is_bool Q value ≡ true)
        × ((to_bool Q value h').0 ≡ ok b)
  unfolding evaluate_match
  evaluate_match-boolean context expr h b e =
      let (value, p, q) = bound _ _ _ b e in
      let (boolean, converted) = evaluated-boolean expr value _ b q in
      (
        value,
        (eval Q context.script_context expr default_file_name h).1,
        ap
            (λ (r : Result (Value Q)).
              (r, (eval Q context.script_context expr default_file_name h).1))
            (replaced-ok _ _ value p),
        boolean,
        converted,
      )
