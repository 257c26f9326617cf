-- ===== src/Rule/File/Schema.antt =====
-- kRuleSchema of src/proxypp/rule/rule_file.cpp, character by character.
use proxypp.Prelude.{String}

abbrev pub rule_schema : String
rule_schema =
    "\n{\n  \"$schema\": \"https://json-schema.org/draft/2020-12/schema\",\n  \"$id\": \"https://proxypp.net/schemas/proxypp_rules_schema_v1.json\",\n  \"title\": \"proxy++ rules schema\",\n  \"description\": \"Defines the JSON configuration format for proxy++ rule-based HTTP/HTTPS traffic processing. This schema describes the structure, fields, allowed values, and static validation rules for proxy++ rules, including processing phases, match conditions, and rule actions. Runtime execution semantics and advanced semantic validation are implemented by proxy++ itself.\",\n  \"type\": \"object\",\n  \"additionalProperties\": false,\n  \"required\": [\"version\"],\n  \"properties\": {\n    \"$schema\": {\n      \"type\": \"string\",\n      \"description\": \"Optional schema URI used by editors and JSON Schema validators. proxy++ ignores this field when loading rules.\"\n    },\n    \"version\": {\n      \"type\": \"integer\",\n      \"const\": 1,\n      \"description\": \"Configuration schema version\"\n    },\n    \"http\": {\n      \"$ref\": \"#/$defs/http/$defs/config\"\n    }\n  },\n  \"$defs\": {\n    \"match\": {\n      \"type\": \"object\",\n      \"additionalProperties\": false,\n      \"required\": [\"expr\"],\n      \"properties\": {\n        \"expr\": {\n          \"type\": \"string\",\n          \"minLength\": 1,\n          \"description\": \"A JavaScript expression evaluated by QuickJS. The expression must return a boolean value. The current HTTP processing context is exposed through the ctx object.\"\n        }\n      }\n    },\n    \"op\": {\n      \"type\": \"string\",\n      \"enum\": [\"set\", \"add\", \"replace\", \"remove\"],\n      \"description\": \"Generic action operation. The final semantics are defined by the combination of op, target and data.\"\n    },\n    \"http\": {\n      \"$defs\": {\n        \"phase\": {\n          \"type\": \"string\",\n          \"enum\": [\"request\", \"response\"],\n          \"description\": \"The HTTP proxy processing phase in which this rule is evaluated. The request phase is evaluated after an HTTP request has been parsed and before it is forwarded upstream. The response phase is evaluated after an HTTP response has been parsed and before it is forwarded to the client.\"\n        },\n        \"target\": {\n          \"type\": \"string\",\n          \"enum\": [\"header\"],\n          \"description\": \"HTTP action target. More HTTP targets, such as body, method, URI, or status code, may be added in future schema versions\"\n        },\n        \"header\": {\n          \"$defs\": {\n            \"name\": {\n              \"type\": \"string\",\n              \"minLength\": 1,\n              \"pattern\": \"^[!#$%&'*+.^_`|~0-9A-Za-z-]+$\",\n              \"description\": \"HTTP header field name.\"\n            },\n            \"value\": {\n              \"type\": \"string\",\n              \"description\": \"HTTP header field value\"\n            }\n          }\n        },\n        \"data\": {\n          \"$defs\": {\n            \"headerName\": {\n              \"type\": \"object\",\n              \"additionalProperties\": false,\n              \"required\": [\"name\"],\n              \"properties\": {\n                \"name\": {\n                  \"$ref\": \"#/$defs/http/$defs/header/$defs/name\"\n                }\n              }\n            },\n            \"headerNameValue\": {\n              \"type\": \"object\",\n              \"additionalProperties\": false,\n              \"required\": [\"name\", \"value\"],\n              \"properties\": {\n                \"name\": {\n                  \"$ref\": \"#/$defs/http/$defs/header/$defs/name\"\n                },\n                \"value\": {\n                  \"$ref\": \"#/$defs/http/$defs/header/$defs/value\"\n                }\n              }\n            }\n          }\n        },\n        \"action\": {\n          \"type\": \"object\",\n          \"additionalProperties\": false,\n          \"required\": [\"op\", \"target\", \"data\"],\n          \"properties\": {\n            \"op\": { \"$ref\": \"#/$defs/op\" },\n            \"target\": { \"$ref\": \"#/$defs/http/$defs/target\" },\n            \"data\": {\n              \"description\": \"Action data. The required shape is determined by the combination of op and target\"\n            }\n          },\n          \"allOf\": [\n            {\n              \"if\": {\n                \"required\": [\"target\", \"op\"],\n                \"properties\": {\n                  \"target\": { \"const\": \"header\" },\n                  \"op\": { \"enum\": [\"set\", \"add\", \"replace\"] }\n                }\n              },\n              \"then\": {\n                \"properties\": {\n                  \"data\": {\n                    \"$ref\": \"#/$defs/http/$defs/data/$defs/headerNameValue\"\n                  }\n                }\n              }\n            },\n            {\n              \"if\": {\n                \"required\": [\"target\", \"op\"],\n                \"properties\": {\n                  \"target\": { \"const\": \"header\" },\n                  \"op\": { \"const\": \"remove\" }\n                }\n              },\n              \"then\": {\n                \"properties\": {\n                  \"data\": {\n                    \"$ref\": \"#/$defs/http/$defs/data/$defs/headerName\"\n                  }\n                }\n              }\n            }\n          ]\n        },\n        \"rule\": {\n          \"type\": \"object\",\n          \"additionalProperties\": false,\n          \"required\": [\"name\", \"phase\", \"actions\"],\n          \"properties\": {\n            \"name\": {\n              \"type\": \"string\",\n              \"minLength\": 1,\n              \"description\": \"Human-readable rule name.\"\n            },\n            \"enabled\": {\n              \"type\": \"boolean\",\n              \"default\": true,\n              \"description\": \"Whether this rule is enabled\"\n            },\n            \"phase\": { \"$ref\": \"#/$defs/http/$defs/phase\" },\n            \"match\": {\n              \"$ref\": \"#/$defs/match\",\n              \"description\": \"Optional match condition. If omitted, the rule matches all HTTP contexts in the specified phase.\"\n            },\n            \"actions\": {\n              \"type\": \"array\",\n              \"minItems\": 1,\n              \"description\": \"Actions to execute when this rule matches. Actions are executed in declaration order.\",\n              \"items\": { \"$ref\": \"#/$defs/http/$defs/action\" }\n            }\n          }\n        },\n        \"config\": {\n          \"type\": \"object\",\n          \"additionalProperties\": false,\n          \"required\": [],\n          \"properties\": {\n            \"rules\": {\n              \"type\": \"array\",\n              \"description\": \"HTTP/HTTPS rule list. Rules are evaluated in declaration order. Each enabled rule is evaluated independently. If a rule matches, its actions are executed in declaration order, and evaluation continues with the next rule.\",\n              \"items\": {\n                \"$ref\": \"#/$defs/http/$defs/rule\"\n              }\n            }\n          }\n        }\n      }\n    }\n  }\n}\n    "
