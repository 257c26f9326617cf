-- ===== src/App/Startup.antt =====
-- What main of src/app/main.cpp does up to the event loop, with src/proxypp/helper/cli_helper.cpp.
-- The parsing of the command line and the set-up of the logs are left out: the parsed options are an
-- argument.
pub mod Laws
use proxypp.Prelude.{
  ℕ, zero, suc, ◌+◌, ◌-◌, ◌*◌, ◌/◌, ◌%◌, ◌^◌, ◌≤◌, ◌<◌, min, String, ◌≡◌, refl, sym, ap, subst, ◌∙◌,
  ◌≡⟨◌⟩◌, ◌∎, ◌≢◌, ◌↔◌, ◌⊎◌, inl, inr, Bool, true, false, not, ◌&&◌, ◌||◌, Option, none, some, List,
  [], ◌∷◌, ◌++◌, map, append-nil, append_assoc, arith, eq_iff, ltb, leb, ◌==◌, ◌+++◌, str_eq,
  if◌then◌else◌, ltb→lt, lt→ltb, ==_iff, Bool-cases, Option-cases, length, take, drop, All,
  length-append, take-append-drop, length-take, length-drop, take-length, drop-length, filter,
  contains,
}
use proxypp.Error.{Error, Result, ok, err, R}
use proxypp.Helper.Attempt.{Attempt, returned, thrown}
use proxypp.Helper.Schema.{JsonSchemas}
use proxypp.Script.Quickjs.{Quickjs}
use proxypp.Script.Runtime
use proxypp.Rule.Model.{Config}
use proxypp.Rule.File.{ConfigJson, load_rules_from_file}
use proxypp.Rule.Scripting.{RuleEngine, create}
use proxypp.Core.TcpServer.{Acceptors, TcpServerOptions, ListenEndpoint, Started, start}
use proxypp.Core.TcpServer
use proxypp.App.ReadyFile.{FileSystem, write_ready_file}

-- What the program takes from outside.
pub record Host : Type 2 where
  pub quickjs : Quickjs
  pub net : Acceptors
  pub files : FileSystem
  pub schemas : JsonSchemas
  pub config_json : ConfigJson
  -- std::filesystem::absolute, and the path of rules.json in the directory of the executable.
  pub absolute : String → String
  pub in_program_directory : String → String

-- HttpOpts, with the option count and the subcommand that CLI11 reports.
pub record HttpOpts : Type 0 where
  pub bind : String
  pub port : ℕ
  pub ready_file : String
  pub rule_file : String
  pub rule_file_count : ℕ
  pub got_http : Bool

-- The outside as the program finds and leaves it.
pub record World (H : Host) : Type 0 where
  pub heap : H.quickjs.Heap
  pub net_world : H.net.World
  pub file_world : H.files.Files

-- The server that main has started: the options that it was made with, from which its accept loop
-- makes the sessions, and the endpoint that Start has returned.
pub record Serving (H : Host) : Type 0 where
  pub options : TcpServerOptions (RuleEngine H.quickjs)
  pub endpoint : ListenEndpoint

-- EXIT_FAILURE, an exception that nothing catches, or the event loop, with the server if there is
-- one.
pub data Launch (H : Host) : Type 0 where
  exit_failure : Launch H
  terminated : Launch H
  runs : Option (Serving H) → Launch H

module _ (H : Host) where
  -- ResolveRuleFilePath
  unfoldable pub resolve_rule_file_path : ℕ → String → String
  resolve_rule_file_path count parsed_rule_file =
      if ltb 0 count then H.absolute parsed_rule_file else H.in_program_directory "rules.json"

  -- LoadRuleConfig
  unfoldable pub load_rule_config : String → World H → Attempt (Result Config)
  load_rule_config path w =
      load_rules_from_file H.schemas H.config_json (H.files.content w.file_world) path

  -- InitRuleEngine
  unfoldable pub init_rule_engine : R H.quickjs.Heap (RuleEngine H.quickjs)
  init_rule_engine = create H.quickjs

  -- Where main returns after the engine exists, the engine is destroyed with its runtime.
  abbrev fails_with : RuleEngine H.quickjs → World H → Launch H × World H
  fails_with engine w =
      (exit_failure, record w { heap = Runtime.destroy H.quickjs engine.runtime w.heap })

  abbrev pub after_ready_file :
      Serving H → World H → Result (Unit {0}) × H.files.Files → Launch H × World H
  after_ready_file server w (ok u, files) = (runs (some server), record w { file_world = files })
  after_ready_file server w (err e, files) =
      fails_with server.options.rule_engine (record w { file_world = files })

  -- Told whether no ready file is asked for.
  abbrev pub announce : Bool → HttpOpts → Serving H → World H → Launch H × World H
  announce true opts server w = (runs (some server), w)
  announce false opts server w = after_ready_file server w (
      write_ready_file H.files opts.ready_file server.endpoint.address server.endpoint.port
        w.file_world)

  abbrev pub after_start :
      HttpOpts
      → TcpServerOptions (RuleEngine H.quickjs)
      → World H
      → Started × H.net.World
      → Launch H × World H
  after_start opts options w (Started.thrown, net) = (terminated, record w { net_world = net })
  after_start opts options w (Started.returned (err e), net) =
      fails_with options.rule_engine (record w { net_world = net })
  after_start opts options w (Started.returned (ok endpoint), net) =
      announce (str_eq opts.ready_file "") opts (record { options = options; endpoint = endpoint })
        (record w { net_world = net })

  abbrev pub options_of :
      HttpOpts → Config → RuleEngine H.quickjs → TcpServerOptions (RuleEngine H.quickjs)
  options_of opts config engine = record {
    address = opts.bind;
    port = opts.port;
    http_rule_config = config.http;
    rule_engine = engine;
  }

  -- Told whether the http command is given.
  abbrev pub serve : Bool → HttpOpts → Config → RuleEngine H.quickjs → World H → Launch H × World H
  serve true opts config engine w =
      let options = options_of opts config engine in
      after_start opts options w (start H.net options w.net_world)
  serve false opts config engine w = (runs none, w)

  abbrev pub after_engine :
      HttpOpts
      → Config
      → World H
      → Result (RuleEngine H.quickjs) × H.quickjs.Heap
      → Launch H × World H
  after_engine opts config w (ok engine, h) =
      serve opts.got_http opts config engine (record w { heap = h })
  after_engine opts config w (err e, h) = (exit_failure, record w { heap = h })

  abbrev pub after_rules : HttpOpts → World H → Attempt (Result Config) → Launch H × World H
  after_rules opts w (thrown e) = (terminated, w)
  after_rules opts w (returned (err e)) = (exit_failure, w)
  after_rules opts w (returned (ok config)) = after_engine opts config w (init_rule_engine w.heap)

  -- main, from the parsed options to io.run().
  unfoldable pub start_up : HttpOpts → World H → Launch H × World H
  start_up opts w =
      after_rules opts w
        (load_rule_config (resolve_rule_file_path opts.rule_file_count opts.rule_file) w)
