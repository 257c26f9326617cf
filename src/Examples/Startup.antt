-- ===== src/Examples/Startup.antt =====
-- The start of the program at concrete inputs.
use proxypp.Prelude.{
  ℕ, String, ◌≡◌, refl, sym, ◌≢◌, ◌↔◌, inl, inr, true, false, Option, none, some, List, [], ◌∷◌,
  arith, eq_iff, ◌==◌, ◌+++◌, str_eq, if◌then◌else◌, Bool-cases,
}
use proxypp.Error.{ok}
use proxypp.Helper.Attempt.{returned, thrown, std_exception}
use proxypp.Helper.Json.{parse_json, convert}
use proxypp.Helper.Files.{read_text_file}
use proxypp.Helper.Schema.{
  JsonSchemas, draft202012, is_supported_json_schema_version, check_version,
  check_json_schema_version, validate_json_by_schema,
}
use proxypp.Script.Runtime
use proxypp.Rule.Model.{Config}
use proxypp.Rule.File.{ConfigJson, load_rules_from_file}
use proxypp.Rule.File.Laws.{Validates, Converts, load_rules_from_file_iff}
use proxypp.Rule.Scripting
use proxypp.Core.TcpServer.{
  Acceptors, TcpServerOptions, ListenEndpoint, Accepted, failed, accepted, constructed, accept_loop,
  listen_on, start,
}
use proxypp.Core.TcpServer.Laws.{numbered, accept_loop_lem}
use proxypp.App.ReadyFile.{FileSystem, ready_text, temporary_name, write_ready_file}
use proxypp.App.ReadyFile.Laws.{FileSystemLaws, write_ready_file-AllOrNothing}
use proxypp.App.Startup.{
  Host, HttpOpts, World, Serving, load_rule_config, init_rule_engine, resolve_rule_file_path,
  start_up,
}
use proxypp.App.Startup.Laws.{Ready, start_up-Ready}
use proxypp.Examples.Scripts.{quickjs, empty_heap}

abbrev server_options : TcpServerOptions ℕ
server_options = record {
  address = "127.0.0.1";
  port = 3000;
  http_rule_config = none;
  rule_engine = 5;
}

abbrev clients : List (Accepted ℕ)
clients = accepted 7 ∷ failed false ∷ accepted 9 ∷ failed true ∷ accepted 11 ∷ []

accept_loop_lem_example :
    (accept_loop server_options clients constructed).sessions
    ≡ numbered server_options 1 (7 ∷ 9 ∷ [])
accept_loop_lem_example = accept_loop_lem server_options clients (omega arith)

-- A file system that never fails.
abbrev Files : Type 0
Files = String → Option String

abbrev update : String → Option String → Files → Files
update path text files name = if str_eq name path then text else files name

abbrev file_system : FileSystem
file_system = record {
  Files = Files;
  content = λ files name. files name;
  open_truncated = λ path files. (true, update path (some "") files);
  write_flushed = λ path text files. (true, update path (some text) files);
  rename = λ from to files. (none, update to (files from) (update from none files));
  absolute = λ path files. none;
  number_text = λ n. if n == 3000 then "3000" else "";
}

update_other :
    (path other : String) (text : Option String) (files : Files)
    → path ≢ other
    → update path text files other ≡ files other
update_other path other text files differs = elim (Bool-cases (str_eq other path)) [
  | inl same ↦ elim (differs (sym ((eq_iff other path).0 same))) [ ]
  | inr different ↦ rw different refl
]

update_same :
    (path : String) (text : Option String) (files : Files) → update path text files path ≡ text
update_same path text files = rw ((eq_iff path path).1 refl) refl

file_system-FileSystemLaws : FileSystemLaws file_system
file_system-FileSystemLaws = record {
  content-open_truncated = λ path other files. update_other path other (some "") files;
  content-write_flushed = λ path text other files. update_other path other (some text) files;
  content-written =
      λ path text files opened good. update_same path (some text) (update path (some "") files);
  content-rename = λ from to files good. update_same to (files from) (update from none files);
  content-rename_failed = λ from to files what bad. cc;
}

abbrev no_files : Files
no_files name = none

write_ready_file-AllOrNothing_example :
    (write_ready_file file_system "ready" "127.0.0.1" 3000 no_files).1 "ready"
    ≡ some (ready_text file_system "127.0.0.1" 3000)
unfolding write_ready_file
write_ready_file-AllOrNothing_example =
    write_ready_file-AllOrNothing file_system-FileSystemLaws "ready" "127.0.0.1" 3000 no_files

-- JSON texts stand for themselves; the schema accepts the text {}.
abbrev schemas : JsonSchemas
schemas = record {
  Json = String;
  parse = λ text. returned text;
  is_object = λ json. true;
  find = λ name json. some draft202012;
  is_string = λ json. true;
  as_string_view = λ json. json;
  Schema = String;
  make_json_schema = λ draft json. returned json;
  validate =
      λ schema json. if str_eq json "{}" then returned tt else thrown (std_exception "invalid");
}

abbrev empty_config : Config
empty_config = record { schema = none; version = 1; http = some (record { rules = some [] }) }

abbrev config_json : ConfigJson
config_json = record {
  Json = String;
  parse = λ text. returned text;
  as_config = λ json. returned empty_config;
}

abbrev rule_files : Files
rule_files = update "/proxy/rules.json" (some "{}") no_files

load_rules_from_file_iff_example :
    (load_rules_from_file schemas config_json rule_files "/proxy/rules.json"
      ≡ returned (ok empty_config))
    ↔ ((text : String) × (rule_files "/proxy/rules.json" ≡ some text)
        × Validates schemas text
        × Converts config_json text empty_config)
load_rules_from_file_iff_example =
    load_rules_from_file_iff schemas config_json rule_files "/proxy/rules.json" empty_config

-- An acceptor that never fails, and that listens at the port that it is told.
abbrev acceptors : Acceptors
acceptors = record {
  World = String × ℕ;
  Address = String;
  make_address = λ text. some text;
  address_text = λ address. address;
  number_text = λ n. "";
  open_acceptor = λ address w. (none, w);
  enable_reuse_address = λ w. (none, w);
  bind = λ address port w. (none, (address, port));
  listen = λ w. (none, w);
  local_endpoint = λ w. w;
}

abbrev host : Host
host = record {
  quickjs = quickjs;
  net = acceptors;
  files = file_system;
  schemas = schemas;
  config_json = config_json;
  absolute = λ path. path;
  in_program_directory = λ name. "/proxy/" +++ name;
}

abbrev opts : HttpOpts
opts = record {
  bind = "127.0.0.1";
  port = 3000;
  ready_file = "ready";
  rule_file = "";
  rule_file_count = 0;
  got_http = true;
}

abbrev initial : World host
initial = record { heap = empty_heap; net_world = ("", 0); file_world = rule_files }

abbrev endpoint : ListenEndpoint
endpoint = record { address = "127.0.0.1"; port = 3000 }

-- The server of these options, with the engine that is created first.
abbrev server : Serving host
server = record {
  options = record {
    address = "127.0.0.1";
    port = 3000;
    http_rule_config = empty_config.http;
    rule_engine = record { runtime = record { native_handle = some tt } };
  };
  endpoint = endpoint;
}

start_up-Ready_example : Ready host opts server initial (start_up host opts initial).1
start_up-Ready_example = start_up-Ready host file_system-FileSystemLaws opts server initial (
    unfold start_up load_rule_config load_rules_from_file read_text_file parse_json convert
      validate_json_by_schema check_json_schema_version check_version
      is_supported_json_schema_version resolve_rule_file_path init_rule_engine Scripting.create
      Runtime.create start listen_on write_ready_file temporary_name ready_text in
    refl)
