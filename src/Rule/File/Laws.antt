-- ===== src/Rule/File/Laws.antt =====
-- What a rule file that loads has passed.
use proxypp.Prelude.{String, ◌≡◌, refl, ◌↔◌, Option, none, some}
use proxypp.Error.{Result, ok, err}
use proxypp.Helper.Attempt.{
  Attempt, returned, thrown, ser_error, conv_error, schema_error, validation_error, std_exception,
  unknown,
}
use proxypp.Helper.Json.{parse_json, convert}
use proxypp.Helper.Files.{opened, read_text_file}
use proxypp.Helper.Schema.{
  JsonSchemas, draft202012, validate_json_by_schema, check_json_schema_version, parsed, checked,
  compiled, validated,
}
use proxypp.Rule.Model.{Config}
use proxypp.Rule.File.Schema.{rule_schema}
use proxypp.Rule.File.{ConfigJson, ◌>>=◌, load_rules_from_file}

-- A document that the validator accepts under the schema of the rules.
pub record Validates (J : JsonSchemas) (text : String) : Type 0 where
  pub schema_json : J.Json
  pub schema_parses : J.parse rule_schema ≡ returned schema_json
  pub version_supported : check_json_schema_version J schema_json ≡ ok tt
  pub document : J.Json
  pub document_parses : J.parse text ≡ returned document
  pub schema : J.Schema
  pub schema_compiles : J.make_json_schema draft202012 schema_json ≡ returned schema
  pub document_valid : J.validate schema document ≡ returned tt

-- A configuration that a text converts to.
pub record Converts (K : ConfigJson) (text : String) (config : Config) : Type 0 where
  pub json : K.Json
  pub json_parses : K.parse text ≡ returned json
  pub json_converts : K.as_config json ≡ returned config

>>=-returned :
    {A B : Type 0} (m : Attempt (Result A)) (f : A → Attempt (Result B)) (b : B)
    → (m >>= f) ≡ returned (ok b)
    → (a : A) × (m ≡ returned (ok a)) × (f a ≡ returned (ok b))
>>=-returned (returned (ok a)) f b e = (a, refl, e)
>>=-returned (returned (err s)) f b e = cc
>>=-returned (thrown s) f b e = cc

module _ (J : JsonSchemas) where
  validated-ok : (m : Attempt (Unit {0})) → validated J m ≡ returned (ok tt) → m ≡ returned tt
  validated-ok (returned u) e = refl
  validated-ok (thrown (ser_error what)) e = cc
  validated-ok (thrown (conv_error what)) e = cc
  validated-ok (thrown (schema_error what)) e = cc
  validated-ok (thrown (validation_error what)) e = cc
  validated-ok (thrown (std_exception what)) e = cc
  validated-ok (thrown unknown) e = cc

  compiled-ok :
      (m : Attempt J.Schema) (document : J.Json)
      → compiled J m document ≡ returned (ok tt)
      → (schema : J.Schema) × (m ≡ returned schema) × (J.validate schema document ≡ returned tt)
  compiled-ok (returned schema) document e =
      (schema, refl, validated-ok (J.validate schema document) e)
  compiled-ok (thrown (ser_error what)) document e = cc
  compiled-ok (thrown (conv_error what)) document e = cc
  compiled-ok (thrown (schema_error what)) document e = cc
  compiled-ok (thrown (validation_error what)) document e = cc
  compiled-ok (thrown (std_exception what)) document e = cc
  compiled-ok (thrown unknown) document e = cc

  parsed-ok :
      (text : String) (m : Attempt J.Json) (next : J.Json → Attempt (Result (Unit {0})))
      → parsed J text m next ≡ returned (ok tt)
      → (json : J.Json) × (m ≡ returned json) × (next json ≡ returned (ok tt))
  parsed-ok text (returned json) next e = (json, refl, e)
  parsed-ok text (thrown (ser_error what)) next e = cc
  parsed-ok text (thrown (conv_error what)) next e = cc
  parsed-ok text (thrown (schema_error what)) next e = cc
  parsed-ok text (thrown (validation_error what)) next e = cc
  parsed-ok text (thrown (std_exception what)) next e = cc
  parsed-ok text (thrown unknown) next e = cc

  checked-ok :
      (r : Result (Unit {0})) (next : Attempt (Result (Unit {0})))
      → checked J r next ≡ returned (ok tt)
      → (r ≡ ok tt) × (next ≡ returned (ok tt))
  checked-ok (ok u) next e = (refl, e)
  checked-ok (err s) next e = cc

  validates :
      (text : String)
      → validate_json_by_schema J rule_schema text ≡ returned (ok tt)
      → Validates J text
  unfolding validate_json_by_schema
  validates text e =
      let (schema_json, p1, e1) = parsed-ok _ _ _ e in
      let (p2, e2) = checked-ok _ _ e1 in
      let (document, p3, e3) = parsed-ok _ _ _ e2 in
      let (schema, p4, p5) = compiled-ok _ document e3 in
      record {
        schema_json = schema_json;
        schema_parses = p1;
        version_supported = p2;
        document = document;
        document_parses = p3;
        schema = schema;
        schema_compiles = p4;
        document_valid = p5;
      }

  Validates-back :
      (text : String)
      → Validates J text
      → validate_json_by_schema J rule_schema text ≡ returned (ok tt)
  unfolding validate_json_by_schema
  Validates-back text v =
      rw
        (
          v.schema_parses, v.version_supported, v.document_parses, v.schema_compiles,
          v.document_valid,
        )
        refl

converts-ok : {A : Type 0} (m : Attempt A) (a : A) → convert m ≡ returned (ok a) → m ≡ returned a
unfolding convert
converts-ok (returned b) a e = cc
converts-ok (thrown (ser_error what)) a e = cc
converts-ok (thrown (conv_error what)) a e = cc
converts-ok (thrown (schema_error what)) a e = cc
converts-ok (thrown (validation_error what)) a e = cc
converts-ok (thrown (std_exception what)) a e = cc
converts-ok (thrown unknown) a e = cc

parse_json-ok :
    {A : Type 0} (m : Attempt A) (a : A)
    → returned (parse_json m) ≡ returned (ok a)
    → m ≡ returned a
unfolding parse_json
parse_json-ok (returned b) a e = cc
parse_json-ok (thrown s) a e = cc

opened-ok :
    (path : String) (o : Option String) (text : String)
    → returned (opened path o) ≡ returned (ok text)
    → o ≡ some text
opened-ok path none text e = cc
opened-ok path (some other) text e = cc

module _ (J : JsonSchemas) (K : ConfigJson) (content : String → Option String) where
  -- A rule file loads as a configuration exactly where it can be read, the validator accepts its
  -- text under the schema of the rules, and the text converts to that configuration: nothing is
  -- loaded that was not validated, and nothing else can stop it.
  pub load_rules_from_file_iff :
      (path : String) (config : Config)
      → (load_rules_from_file J K content path ≡ returned (ok config))
        ↔ ((text : String) × (content path ≡ some text) × Validates J text × Converts K text config)
  unfolding load_rules_from_file read_text_file parse_json convert
  load_rules_from_file_iff path config = (
    λ e.
        let (text, p1, e1) = >>=-returned _ _ config e in
        let (u, p2, e2) = >>=-returned _ _ config e1 in
        let (json, p3, e3) = >>=-returned _ _ config e2 in
        (
          text,
          opened-ok path (content path) text p1,
          validates J text p2,
          record {
            json = json;
            json_parses = parse_json-ok (K.parse text) json p3;
            json_converts = converts-ok (K.as_config json) config e3;
          },
        ),
    λ (text, p, v, c). rw (p, Validates-back J text v, c.json_parses, c.json_converts) refl,
  )
