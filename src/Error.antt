-- ===== src/Error.antt =====
-- Errors and results: src/proxypp/error.{h,cpp}, result.h, rule/error.{h,cpp} and
-- script/qjs/error.{h,cpp}. An error code is an enumerator with its category.
use proxypp.Prelude.{String, ◌≡◌, refl, Bool, true, false, ◌&&◌, str_eq, if◌then◌else◌}

-- proxypp::Errc
pub data Errc : Type 0 where
  ok internal_error invalid_argument file_operation_failed json_parse_failed json_conversion_failed
        invalid_json_schema json_schema_validation_failed start_tcp_server_failed :
      Errc

-- proxypp::rule::Errc
pub data RuleErrc : Type 0 where
  ok invalid_rule rule_engine_initialization_failed rule_context_preparation_failed
        invalid_match_expression match_evaluation_failed match_result_not_boolean invalid_action
        action_execution_failed :
      RuleErrc

-- proxypp::script::qjs::Errc
pub data QjsErrc : Type 0 where
  ok create_runtime_failed create_context_failed invalid_runtime invalid_context invalid_value
        context_mismatch convert_value_failed execute_script_failed get_property_failed
        set_property_failed get_element_failed set_element_failed js_internal_error :
      QjsErrc

-- boost::system::error_code, made from one of the enumerations.
pub data Code : Type 0 where
  common : Errc → Code
  rule : RuleErrc → Code
  qjs : QjsErrc → Code

-- ErrorCategory::message
common_message : Errc → String
common_message Errc.ok = "success"
common_message internal_error = "internal error"
common_message invalid_argument = "invalid argument"
common_message file_operation_failed = "file operation failed"
common_message json_parse_failed = "parse json failed"
common_message json_conversion_failed = "convert json failed"
common_message invalid_json_schema = "invalid json schema"
common_message json_schema_validation_failed = "json schema validation failed"
common_message start_tcp_server_failed = "start tcp server failed"

-- RuleErrorCategory::message
rule_message : RuleErrc → String
rule_message RuleErrc.ok = "success"
rule_message invalid_rule = "invalid rule"
rule_message rule_engine_initialization_failed = "rule engine initialization failed"
rule_message rule_context_preparation_failed = "rule context preparation failed"
rule_message invalid_match_expression = "invalid match expression"
rule_message match_evaluation_failed = "match expression evaluation failed"
rule_message match_result_not_boolean = "match expression result is not boolean"
rule_message invalid_action = "invalid rule action"
rule_message action_execution_failed = "action execution failed"

-- QjsErrorCategory::message
qjs_message : QjsErrc → String
qjs_message QjsErrc.ok = "success"
qjs_message create_runtime_failed = "failed to create QuickJS runtime"
qjs_message create_context_failed = "failed to create QuickJS context"
qjs_message invalid_runtime = "invalid runtime"
qjs_message invalid_context = "invalid context"
qjs_message invalid_value = "invalid value"
qjs_message context_mismatch = "context mismatch"
qjs_message convert_value_failed = "convert value failed"
qjs_message execute_script_failed = "execute script failed"
qjs_message get_property_failed = "failed to get JavaScript property"
qjs_message set_property_failed = "failed to set JavaScript property"
qjs_message get_element_failed = "get element from array failed"
qjs_message set_element_failed = "set element to array failed"
qjs_message js_internal_error = "javascript runtime internal error"

code_message : Code → String
unfolding common_message rule_message qjs_message
code_message (common c) = common_message c
code_message (rule c) = rule_message c
code_message (qjs c) = qjs_message c

-- static_cast<bool>(code): the value of the enumerator is not 0.
is_set : Code → Bool
is_set (common Errc.ok) = false
is_set (rule RuleErrc.ok) = false
is_set (qjs QjsErrc.ok) = false
is_set _ = true

pub record Error : Type 0 where
  pub code : Code
  pub message : String

-- The constructor of Error: an empty message is replaced by that of the code, if the code is set.
unfoldable pub make_error : Code → String → Error
unfolding code_message is_set
make_error code msg =
    if str_eq msg "" && is_set code
    then record { code = code; message = code_message code }
    else record { code = code; message = msg }

pub data Result {ℓ} (A : Type ℓ) : Type ℓ where
  ok : A → Result A
  err : Error → Result A

-- An operation on a state that may fail, and that leaves a state also where it fails.
abbrev pub R : Type 0 → Type 0 → Type 0
R S A = S → Result A × S

-- An error replaced by another.
abbrev pub replaced : {A : Type 0} → (Error → Error) → Result A → Result A
replaced f (ok a) = ok a
replaced f (err e) = err (f e)

module _ {S : Type 0} where
  abbrev pub pure : {A : Type 0} → A → R S A
  pure a s = (ok a, s)

  abbrev pub fail : {A : Type 0} → Error → R S A
  fail e s = (err e, s)

  abbrev pub bind : {A B : Type 0} → Result A → S → (A → R S B) → Result B × S
  bind (ok a) s f = f a s
  bind (err e) s f = (err e, s)

  infixl 5 ◌>>=◌ ◌>>◌
  abbrev pub ◌>>=◌ : {A B : Type 0} → R S A → (A → R S B) → R S B
  ◌>>=◌ m f s = bind (m s).0 (m s).1 f

  abbrev pub ◌>>◌ : {B : Type 0} → R S (Unit {0}) → R S B → R S B
  m >> k = m >>= λ _. k

  -- A call that cannot fail, with and without a value.
  abbrev pub call : {A : Type 0} → (S → A × S) → R S A
  call f s = (ok (f s).0, (f s).1)

  abbrev pub act : (S → S) → R S (Unit {0})
  act f s = (ok tt, f s)

  -- What a destructor does at the end of a scope, on every path.
  abbrev pub finally : {A : Type 0} → (S → S) → R S A → R S A
  finally cleanup m s = ((m s).0, cleanup (m s).1)

  abbrev pub after_error : {A : Type 0} → (S → S) → Result A → S → Result A × S
  after_error cleanup (ok a) s = (ok a, s)
  after_error cleanup (err e) s = (err e, cleanup s)

  -- What a destructor does where the scope is left early with an error.
  abbrev pub on_error : {A : Type 0} → (S → S) → R S A → R S A
  on_error cleanup m s = after_error cleanup (m s).0 (m s).1

  abbrev pub map_error : {A : Type 0} → (Error → Error) → R S A → R S A
  map_error f m s = (replaced f (m s).0, (m s).1)

  pub >>=-assoc :
      {A B C : Type 0} (m : R S A) (f : A → R S B) (g : B → R S C) (s : S)
      → ((m >>= f) >>= g) s ≡ (m >>= λ a. f a >>= g) s
  >>=-assoc m f g s = assoc (m s).0 (m s).1
    where
      assoc :
          (r : Result _) (t : S) → bind (bind r t f).0 (bind r t f).1 g ≡ bind r t (λ a. f a >>= g)
      assoc (ok a) t = refl
      assoc (err e) t = refl
