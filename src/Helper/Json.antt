-- ===== src/Helper/Json.antt =====
-- src/proxypp/helper/json_helper.{h,cpp}. The parser and the conversion are those of jsoncons: what
-- they return or throw is an argument.
use proxypp.Error.{
  common, json_parse_failed, json_conversion_failed, internal_error, Error, make_error, Result, ok,
  err,
}
use proxypp.Helper.Attempt.{
  Attempt, returned, thrown, Thrown, ser_error, conv_error, schema_error, validation_error,
  std_exception, unknown,
}

-- what() of an exception that derives from std::exception.
abbrev parse_error : Thrown → Error
parse_error unknown = make_error (common json_parse_failed) "unknown json parse error"
parse_error (ser_error what) = make_error (common json_parse_failed) what
parse_error (conv_error what) = make_error (common json_parse_failed) what
parse_error (schema_error what) = make_error (common json_parse_failed) what
parse_error (validation_error what) = make_error (common json_parse_failed) what
parse_error (std_exception what) = make_error (common json_parse_failed) what

-- ParseJson: every exception becomes an error.
unfoldable pub parse_json {ℓ} : {Json : Type ℓ} → Attempt Json → Result Json
parse_json (returned json) = ok json
parse_json (thrown e) = err (parse_error e)

-- Convert: what does not derive from std::exception is not caught.
unfoldable pub convert {ℓ} : {A : Type ℓ} → Attempt A → Attempt (Result A)
convert (returned a) = returned (ok a)
convert (thrown (conv_error what)) = returned (err (make_error (common json_conversion_failed) ""))
convert (thrown unknown) = thrown unknown
convert (thrown _) =
    returned (err (make_error (common internal_error) "unexpected json conversion error"))
