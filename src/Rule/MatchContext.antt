-- ===== src/Rule/MatchContext.antt =====
-- The context in which match expressions are evaluated: src/proxypp/rule/match_context.{h,cpp}.
-- Logging is left out.
pub mod Owning
use proxypp.Prelude.{String, not, if◌then◌else◌}
use proxypp.Error.{
  rule, rule_context_preparation_failed, on_error, map_error, finally, Error, make_error, R, fail,
  ◌>>=◌,
}
use proxypp.Script.Quickjs.{Quickjs}
use proxypp.Script.Value.{Value, Context, destroy, is_valid, is_object, global_object}
use proxypp.Script.Value.Property.{set_property}

-- rule::MatchContext, with its Impl.
pub record MatchContext (Q : Quickjs) : Type 0 where
  pub script_context : Context Q

-- An error while a context is prepared, with the text of the one behind it.
unfoldable pub preparation_error : String → Error
preparation_error text = make_error (rule rule_context_preparation_failed) text

module _ (Q : Quickjs) where
  -- MatchContext::AddGlobalValue
  unfoldable pub add_global_value : String → Value Q → MatchContext Q → R Q.Heap (Unit {0})
  add_global_value name value context = do
    global ←
        on_error (destroy Q value)
          (map_error (λ e. preparation_error e.message) (global_object Q context.script_context))
    finally (destroy Q global)
        (map_error (λ e. preparation_error e.message) (set_property Q name value global))

  -- MatchContext::AddObject
  unfoldable pub add_object : String → Value Q → MatchContext Q → R Q.Heap (Unit {0})
  add_object name object context =
      if not (is_valid Q object)
      then finally (destroy Q object) (fail (preparation_error "value is invalid"))
      else if not (is_object Q object)
      then finally (destroy Q object) (fail (preparation_error "value is not an object"))
      else add_global_value name object context
