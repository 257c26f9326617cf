-- ===== src/Helper/Schema.antt =====
-- src/proxypp/helper/json_schema_helper.cpp. The parser and the validator are those of jsoncons.
use proxypp.Prelude.{String, Bool, not, ◌||◌, Option, none, some, ◌+++◌, str_eq, if◌then◌else◌}
use proxypp.Error.{
  common, invalid_json_schema, json_parse_failed, json_schema_validation_failed, internal_error,
  make_error, Result, ok, err,
}
use proxypp.Helper.Attempt.{
  Attempt, returned, thrown, Thrown, ser_error, conv_error, schema_error, validation_error,
  std_exception, unknown,
}

-- jsoncons::json and jsoncons::jsonschema.
pub record JsonSchemas : Type 1 where
  pub Json : Type 0
  pub parse : String → Attempt Json
  pub is_object : Json → Bool
  pub find : String → Json → Option Json
  pub is_string : Json → Bool
  pub as_string_view : Json → String
  pub Schema : Type 0
  -- jsonschema::make_json_schema, with the default version of the options.
  pub make_json_schema : String → Json → Attempt Schema
  pub validate : Schema → Json → Attempt (Unit {0})

abbrev pub draft202012 : String
draft202012 = "https://json-schema.org/draft/2020-12/schema"

abbrev draft202012_with_hash : String
draft202012_with_hash = "https://json-schema.org/draft/2020-12/schema#"

-- IsSupportedJsonSchemaVersion
unfoldable pub is_supported_json_schema_version : String → Bool
is_supported_json_schema_version value =
    str_eq value draft202012 || str_eq value draft202012_with_hash

abbrev schema_failure : String → Result (Unit {0})
schema_failure text = err (make_error (common invalid_json_schema) text)

module _ (J : JsonSchemas) where
  -- CheckJsonSchemaVersion, from the member $schema on.
  unfoldable pub check_version : Option J.Json → Result (Unit {0})
  check_version none = schema_failure ("rule schema must declare $schema: " +++ draft202012)
  check_version (some version) =
      if not (J.is_string version)
      then schema_failure "rule schema '$schema' must be a string"
      else if not (is_supported_json_schema_version (J.as_string_view version))
      then schema_failure (
          "unsupported rule schema version: "
          +++ J.as_string_view version
          +++ ", expected: "
          +++ draft202012)
      else ok tt

  -- CheckJsonSchemaVersion
  unfoldable pub check_json_schema_version : J.Json → Result (Unit {0})
  check_json_schema_version schema =
      if not (J.is_object schema)
      then schema_failure "rule schema must be a JSON object"
      else check_version (J.find "$schema" schema)

  -- The handlers of the last try block.
  abbrev validation_failure : Thrown → Attempt (Result (Unit {0}))
  validation_failure (schema_error what) =
      returned (schema_failure ("invalid JSON schema: " +++ what))
  validation_failure (conv_error what) =
      returned (schema_failure ("invalid JSON schema: " +++ what))
  validation_failure (validation_error what) = returned (
      err
        (make_error (common json_schema_validation_failed) ("schema validation failed: " +++ what)))
  validation_failure (ser_error what) =
      returned (err (make_error (common internal_error) ("schema validation failed, " +++ what)))
  validation_failure (std_exception what) =
      returned (err (make_error (common internal_error) ("schema validation failed, " +++ what)))
  validation_failure unknown = thrown unknown

  abbrev pub validated : Attempt (Unit {0}) → Attempt (Result (Unit {0}))
  validated (returned u) = returned (ok u)
  validated (thrown e) = validation_failure e

  abbrev pub compiled : Attempt J.Schema → J.Json → Attempt (Result (Unit {0}))
  compiled (returned schema) document = validated (J.validate schema document)
  compiled (thrown e) document = validation_failure e

  -- json::parse, with the handler for a ser_error only.
  abbrev pub parsed :
      String → Attempt J.Json → (J.Json → Attempt (Result (Unit {0}))) → Attempt (Result (Unit {0}))
  parsed text (returned json) next = next json
  parsed text (thrown (ser_error what)) next =
      returned (err (make_error (common json_parse_failed) (text +++ what)))
  parsed text (thrown e) next = thrown e

  abbrev pub checked : Result (Unit {0}) → Attempt (Result (Unit {0})) → Attempt (Result (Unit {0}))
  checked (ok u) next = next
  checked (err e) next = returned (err e)

  -- ValidateJsonBySchema
  unfoldable pub validate_json_by_schema : String → String → Attempt (Result (Unit {0}))
  validate_json_by_schema schema_text document_text =
      parsed "parse rule schema failed, " (J.parse schema_text) λ schema.
        checked (check_json_schema_version schema) (
          parsed "invalid rule file JSON: " (J.parse document_text)
            λ document. compiled (J.make_json_schema draft202012 schema) document)
