-- ===== src/Script/Evaluator.antt =====
-- The evaluation of a script: src/proxypp/script/qjs/evaluator.{h,cpp}. Logging is left out.
use proxypp.Prelude.{String, ◌+++◌, if◌then◌else◌}
use proxypp.Error.{execute_script_failed, qjs, make_error, R, fail, ◌>>=◌, ◌>>◌, call, act}
use proxypp.Script.Quickjs.{Quickjs}
use proxypp.Script.Value.{Value, Context, in_context, adopt, get_exception_message}

-- The default argument of Evaluator::Eval.
abbrev pub default_file_name : String
default_file_name = "<proxypp-qjs>"

module _ (Q : Quickjs) where
  unfoldable pub eval_result : Q.JsContext → String → Q.JsValue → R Q.Heap (Value Q)
  eval_result c file_name result =
      if Q.is_exception result
      then (do
        message ← get_exception_message Q c
        act (Q.free_value c result)
        fail (make_error (qjs execute_script_failed) (message +++ ", from " +++ file_name)))
      else adopt Q c result

  -- Evaluator::Eval
  unfoldable pub eval : Context Q → String → String → R Q.Heap (Value Q)
  eval context expr file_name =
      in_context Q context
        λ c. do result ← call (Q.eval c expr file_name); eval_result c file_name result
