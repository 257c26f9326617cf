-- ===== src/App/Startup/Laws.antt =====
-- What holds when the event loop starts.
use proxypp.Prelude.{
  String, ◌≡◌, refl, sym, ap, ◌∙◌, Bool, true, false, Option, some, List, str_eq, All, All-map,
}
use proxypp.Error.{Result, ok, err}
use proxypp.Helper.Attempt.{Attempt, returned, thrown}
use proxypp.Rule.Model.{Config}
use proxypp.Rule.Scripting.{RuleEngine}
use proxypp.Core.TcpServer.{
  TcpServerOptions, Started, start, SessionArguments, Accepted, constructed, accept_loop,
}
use proxypp.Core.TcpServer.Laws.{HasOptions, accept_loop-All}
use proxypp.App.ReadyFile.{ready_text}
use proxypp.App.ReadyFile.Laws.{FileSystemLaws, AllOrNothing, write_ready_file-AllOrNothing}
use proxypp.App.Startup.{
  Host, HttpOpts, World, Serving, Launch, runs, resolve_rule_file_path, load_rule_config,
  init_rule_engine, after_ready_file, announce, after_start, options_of, serve, after_engine,
  after_rules, start_up,
}

module _ (H : Host) (opts : HttpOpts) (server : Serving H) where
  -- The ready file, if one is asked for, tells the endpoint.
  abbrev pub Announced : World H → Type 0
  Announced w' =
      str_eq opts.ready_file "" ≡ false
      → H.files.content w'.file_world opts.ready_file
        ≡ some (ready_text H.files server.endpoint.address server.endpoint.port)

  -- The sessions of any clients have this engine and the rules of this configuration.
  abbrev pub Applies : Config → RuleEngine H.quickjs → Type 1
  Applies config engine =
      (Socket : Type 0) (clients : List (Accepted Socket))
      → All
          (λ (session : SessionArguments (RuleEngine H.quickjs) Socket).
            (session.rule_engine ≡ engine) × (session.http_rule_config ≡ config.http))
          (accept_loop server.options clients constructed).sessions

  pub record Ready (w w' : World H) : Type 1 where
    pub config : Config
    pub loaded :
        load_rule_config H (resolve_rule_file_path H opts.rule_file_count opts.rule_file) w
        ≡ returned (ok config)
    pub engine : RuleEngine H.quickjs
    pub created : init_rule_engine H w.heap ≡ (ok engine, w'.heap)
    pub address : server.options.address ≡ opts.bind
    pub port : server.options.port ≡ opts.port
    pub listening :
        start H.net server.options w.net_world
        ≡ (Started.returned (ok server.endpoint), w'.net_world)
    pub applies : Applies config engine
    pub announced : Announced w'

module _ (H : Host) (L : FileSystemLaws H.files) (opts : HttpOpts) (server : Serving H) where
  -- What is left to show from a world on in which the engine exists.
  abbrev Announces : World H → Launch H × World H → Type 0
  Announces w r = (r.1.heap ≡ w.heap) × (r.1.net_world ≡ w.net_world) × Announced H opts server r.1

  after_ready_file-runs :
      (found : Serving H) (w : World H) (before : Option String) (r : Result (Unit {0}))
      (files : H.files.Files)
      → AllOrNothing L opts.ready_file found.endpoint.address found.endpoint.port before
          (H.files.content files opts.ready_file)
          r
      → (after_ready_file H found w (r, files)).0 ≡ runs (some server)
      → (found ≡ server) × Announces w (after_ready_file H found w (r, files))
  after_ready_file-runs found w before (ok u) files p e =
      let same : found ≡ server = cc in
      (
        same,
        (
          refl,
          refl,
          λ asked.
              p
              ∙ ap (λ (x : Serving H). some (ready_text H.files x.endpoint.address x.endpoint.port))
                  same,
        ),
      )
  after_ready_file-runs found w before (err s) files p e = cc

  announce-runs :
      (found : Serving H) (w : World H) (b : Bool)
      → str_eq opts.ready_file "" ≡ b
      → (announce H b opts found w).0 ≡ runs (some server)
      → (found ≡ server) × Announces w (announce H b opts found w)
  announce-runs found w true h e = (cc, (refl, refl, λ asked. cc))
  announce-runs found w false h e =
      after_ready_file-runs found w _ _ _
        (write_ready_file-AllOrNothing L opts.ready_file found.endpoint.address found.endpoint.port
          w.file_world)
        e

  after_start-runs :
      (options : TcpServerOptions (RuleEngine H.quickjs)) (w : World H) (r : Started)
      (n : H.net.World)
      → (after_start H opts options w (r, n)).0 ≡ runs (some server)
      → (options ≡ server.options)
        × (r ≡ Started.returned (ok server.endpoint))
        × Announces (record w { net_world = n }) (after_start H opts options w (r, n))
  after_start-runs options w Started.thrown n e = cc
  after_start-runs options w (Started.returned (err s)) n e = cc
  after_start-runs options w (Started.returned (ok found)) n e =
      let (same, p) =
        announce-runs (record { options = options; endpoint = found }) (record w { net_world = n })
          _ refl e in
      (
        ap (λ (x : Serving H). x.options) same,
        ap (λ (x : Serving H). Started.returned (ok x.endpoint)) same,
        p,
      )

  -- The options that main writes down for the server.
  MadeOf : Config → RuleEngine H.quickjs → Type 0
  MadeOf config engine =
      (server.options.address ≡ opts.bind)
      × (server.options.port ≡ opts.port)
      × (server.options.rule_engine ≡ engine)
      × (server.options.http_rule_config ≡ config.http)

  serve-runs :
      (config : Config) (engine : RuleEngine H.quickjs) (w : World H) (b : Bool)
      → (serve H b opts config engine w).0 ≡ runs (some server)
      → MadeOf config engine
        × (start H.net server.options w.net_world
            ≡ (Started.returned (ok server.endpoint), (serve H b opts config engine w).1.net_world))
        × ((serve H b opts config engine w).1.heap ≡ w.heap)
        × Announced H opts server (serve H b opts config engine w).1
  unfolding MadeOf
  serve-runs config engine w true e =
      let options = options_of H opts config engine in
      let (same, found, (heap, net, announced)) = after_start-runs options w _ _ e in
      (
        (
          ap (λ (o : TcpServerOptions (RuleEngine H.quickjs)). o.address) (sym same),
          ap (λ (o : TcpServerOptions (RuleEngine H.quickjs)). o.port) (sym same),
          ap (λ (o : TcpServerOptions (RuleEngine H.quickjs)). o.rule_engine) (sym same),
          ap (λ (o : TcpServerOptions (RuleEngine H.quickjs)). o.http_rule_config) (sym same),
        ),
        ap (λ (o : TcpServerOptions (RuleEngine H.quickjs)). start H.net o w.net_world) (sym same)
            ∙ ap (λ (x : Started). (x, (start H.net options w.net_world).1)) found
            ∙ ap (λ (n : H.net.World). (Started.returned (ok server.endpoint), n)) (sym net),
        heap,
        announced,
      )
  serve-runs config engine w false e = cc

  MadeOf-Applies :
      (config : Config) (engine : RuleEngine H.quickjs)
      → MadeOf config engine
      → Applies H opts server config engine
  unfolding MadeOf
  MadeOf-Applies config engine (a, p, same_engine, same_rules) Socket clients =
      All-map {P = HasOptions server.options}
        (λ (session : SessionArguments (RuleEngine H.quickjs) Socket) (e, r).
          (e ∙ same_engine, r ∙ same_rules))
        (accept_loop server.options clients constructed).sessions
        (accept_loop-All server.options clients constructed tt)

  after_engine-runs :
      (config : Config) (w : World H)
      → load_rule_config H (resolve_rule_file_path H opts.rule_file_count opts.rule_file) w
        ≡ returned (ok config)
      → (r : Result (RuleEngine H.quickjs)) (h : H.quickjs.Heap)
      → init_rule_engine H w.heap ≡ (r, h)
      → (after_engine H opts config w (r, h)).0 ≡ runs (some server)
      → Ready H opts server w (after_engine H opts config w (r, h)).1
  unfolding MadeOf
  after_engine-runs config w loaded (err s) h created e = cc
  after_engine-runs config w loaded (ok engine) h created e =
      let (made, started, heap, announced) =
        serve-runs config engine (record w { heap = h }) opts.got_http e in
      record {
        config = config;
        loaded = loaded;
        engine = engine;
        created = created ∙ ap (λ (x : H.quickjs.Heap). (ok engine, x)) (sym heap);
        address = made.0;
        port = made.1;
        listening = started;
        applies = MadeOf-Applies config engine made;
        announced = announced;
      }

  after_rules-runs :
      (w : World H) (r : Attempt (Result Config))
      → load_rule_config H (resolve_rule_file_path H opts.rule_file_count opts.rule_file) w ≡ r
      → (after_rules H opts w r).0 ≡ runs (some server)
      → Ready H opts server w (after_rules H opts w r).1
  after_rules-runs w (thrown s) loaded e = cc
  after_rules-runs w (returned (err s)) loaded e = cc
  after_rules-runs w (returned (ok config)) loaded e =
      after_engine-runs config w loaded (init_rule_engine H w.heap).0 (init_rule_engine H w.heap).1
        refl e

  -- The event loop starts with a server only after the rules were loaded, the engine was created
  -- and the server, which has the address and the port of the command line, listens at its
  -- endpoint; the sessions that its accept loop makes for any clients then have exactly this engine
  -- and these rules; and the ready file, if one is asked for, tells the endpoint.
  pub start_up-Ready :
      (w : World H)
      → (start_up H opts w).0 ≡ runs (some server)
      → Ready H opts server w (start_up H opts w).1
  unfolding start_up
  start_up-Ready w e = after_rules-runs w _ refl e
