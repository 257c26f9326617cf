-- ===== src/Rule/File.antt =====
-- The loading of a rule file: LoadRulesFromFile of src/proxypp/rule/rule_file.cpp. Logging is left
-- out.
pub mod Schema
pub mod Laws
use proxypp.Prelude.{String, Option}
use proxypp.Error.{Result, ok, err}
use proxypp.Helper.Attempt.{Attempt, returned, thrown}
use proxypp.Helper.Json.{parse_json, convert}
use proxypp.Helper.Files.{read_text_file}
use proxypp.Helper.Schema.{JsonSchemas, validate_json_by_schema}
use proxypp.Rule.Model.{Config}
use proxypp.Rule.File.Schema.{rule_schema}

-- proxypp::json, which is jsoncons::ojson, with the conversion to a configuration.
pub record ConfigJson : Type 1 where
  pub Json : Type 0
  pub parse : String → Attempt Json
  pub as_config : Json → Attempt Config

-- if(!result) return Unexpected(result.error())
infixl 5 ◌>>=◌
abbrev pub ◌>>=◌ :
    {A B : Type 0} → Attempt (Result A) → (A → Attempt (Result B)) → Attempt (Result B)
returned (ok a) >>= f = f a
returned (err e) >>= f = returned (err e)
thrown e >>= f = thrown e

module _ (J : JsonSchemas) (K : ConfigJson) where
  unfoldable pub load_rules_from_file : (String → Option String) → String → Attempt (Result Config)
  load_rules_from_file content file_path = do
    text ← returned (read_text_file content file_path)
    u ← validate_json_by_schema J rule_schema text
    json ← returned (parse_json (K.parse text))
    convert (K.as_config json)
