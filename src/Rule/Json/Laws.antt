-- ===== src/Rule/Json/Laws.antt =====
-- What a converted action is good for.
use proxypp.Prelude.{String, ◌≡◌, refl, sym, ap, ◌∙◌, false, Option, none, some, List, arith}
use proxypp.Rule.Model.{Op, Target, ActionData, header_name, header_name_value, Action}
use proxypp.Rule.Executor.{data_name, is_unsupported}
use proxypp.Rule.Executor.Laws.{effect, IsAllowed}
use proxypp.Rule.Json.{
  JsonTraits, ◌>>=◌, as_name_value, as_name, header_data, action_data_of, as_action,
}

>>=-some :
    {A B : Type 0} (o : Option A) (f : A → Option B) (b : B)
    → (o >>= f) ≡ some b
    → (a : A) × (o ≡ some a) × (f a ≡ some b)
>>=-some none f b e = cc
>>=-some (some a) f b e = (a, refl, e)

module _ (J : JsonTraits) where
  name_value-some :
      (j : J.Json) (d : ActionData)
      → as_name_value J j ≡ some d
      → (nv : String × String) × (header_name_value nv.0 nv.1 ≡ d)
  unfolding as_name_value
  name_value-some j d e =
      let (nv, _, same) = >>=-some (J.as_header_name_value j) _ d e in (nv, ground arith)

  header_data-fits :
      (op : Op) (j : J.Json) (d : ActionData)
      → header_data J op j ≡ some d
      → (change : List String → List String) × (effect op d ≡ some change)
  unfolding header_data as_name_value as_name
  header_data-fits Op.add j d e = let (nv, same) = name_value-some j d e in rw (← same) (_, refl)
  header_data-fits Op.set j d e = let (nv, same) = name_value-some j d e in rw (← same) (_, refl)
  header_data-fits Op.replace j d e =
      let (nv, same) = name_value-some j d e in rw (← same) (_, refl)
  header_data-fits Op.remove j d e =
      let (n, _, same) = >>=-some (J.as_header_name j) _ d e in
      let eq : header_name n ≡ d = ground arith in rw (← eq) (_, refl)
  header_data-fits Op.not_set j d e = cc

  action_data-fits :
      (op : Op) (target : Target) (j : J.Json) (d : ActionData)
      → action_data_of J op target j ≡ some d
      → (target ≡ Target.header)
        × ((change : List String → List String) × (effect op d ≡ some change))
  unfolding action_data_of
  action_data-fits op Target.header j d e = (refl, header_data-fits op j d e)
  action_data-fits op Target.not_set j d e = cc

  -- An action that was converted from JSON is on a header and has the data that its operation
  -- requires: it may run, unless the header that it names is protected.
  pub as_action-IsAllowed :
      (to_lower : String → String) (j : J.Json) (action : Action)
      → as_action J j ≡ some action
      → is_unsupported to_lower (data_name action.action_data) ≡ false
      → (change : List String → List String) × IsAllowed to_lower action change
  unfolding as_action
  as_action-IsAllowed to_lower j action e free =
      let (op_json, _, e1) = >>=-some (J.at "op" j) _ action e in
      let (op, _, e2) = >>=-some (J.as_op op_json) _ action e1 in
      let (target_json, _, e3) = >>=-some (J.at "target" j) _ action e2 in
      let (target, _, e4) = >>=-some (J.as_target target_json) _ action e3 in
      let (data_json, _, e5) = >>=-some (J.at "data" j) _ action e4 in
      let (d, made, e6) = >>=-some (action_data_of J op target data_json) _ action e5 in
      let (on_header, (change, fits)) = action_data-fits op target data_json d made in
      let same : record { op = op; target = target; action_data = d } ≡ action = ground arith in
      (
        change,
        record {
          target = ap (λ (a : Action). a.target) (sym same) ∙ on_header;
          supported = free;
          fits = ap (λ (a : Action). effect a.op a.action_data) (sym same) ∙ fits;
        },
      )
