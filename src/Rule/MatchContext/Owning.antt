-- ===== src/Rule/MatchContext/Owning.antt =====
-- What is added to a context ends in its global object or is destroyed, on every path.
use proxypp.Prelude.{String, inl, inr, arith, Bool-cases}
use proxypp.Script.Quickjs.{Quickjs, QuickjsLaws}
use proxypp.Script.Ledger.{
  map_error-Accounts, finally-Accounts, Accounts, recount-Accounts, bind-Accounts, fail-Accounts,
}
use proxypp.Script.Value.{Value, destroy, is_valid, is_object}
use proxypp.Script.Value.Owning.{owned_weight, destroy-Ledger, scope-Accounts, guard-Accounts}
use proxypp.Script.Value.Making.{global_object-Accounts}
use proxypp.Script.Value.Access.{set_property-Accounts}
use proxypp.Rule.MatchContext.{MatchContext, preparation_error, add_global_value, add_object}

module _ {Q : Quickjs} (L : QuickjsLaws Q) where
  add_global_value-Accounts :
      (name : String) (value : Value Q) (context : MatchContext Q)
      → Accounts L.counters (add_global_value Q name value context) (owned_weight L value) (λ _. 0)
  unfolding add_global_value
  add_global_value-Accounts name value context =
      bind-Accounts L.counters _
        (guard-Accounts L value
          (map_error-Accounts L.counters _ (global_object-Accounts L context.script_context)))
        λ global.
          recount-Accounts L.counters
            (finally-Accounts L.counters (destroy Q global) (owned_weight L value)
              (owned_weight L global)
              (map_error-Accounts L.counters _ (set_property-Accounts L name value global))
              (destroy-Ledger L global))
            (omega arith)

  pub add_object-Accounts :
      (name : String) (object : Value Q) (context : MatchContext Q)
      → Accounts L.counters (add_object Q name object context) (owned_weight L object) (λ _. 0)
  unfolding add_object
  add_object-Accounts name object context = elim (Bool-cases (is_valid Q object)) [
    | inr invalid ↦
        rw invalid (
          scope-Accounts L object (fail-Accounts L.counters (preparation_error "value is invalid")))
    | inl valid ↦ rw valid (elim (Bool-cases (is_object Q object)) [
      | inr other ↦ rw other (
          scope-Accounts L object
            (fail-Accounts L.counters (preparation_error "value is not an object")))
      | inl object_found ↦ rw object_found (add_global_value-Accounts name object context)
    ])
  ]
