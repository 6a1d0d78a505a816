-- ===== src/Program/Logger.antt =====
-- src/ohno.cc and src/log/logger.cc: the logger that `main` and the functions of its file write to.
use ohno.Common.{◌≡◌, sym, subst, Bool, false, List, some, if◌then◌else◌}
use ohno.Common.Bytes.{Bytes}
use ohno.Common.Exec.{
  Outcome, Keeps, Keeps-bind, Keeps-if, Returns, Returns-step, Tries-after, pure, lift, or_throw,
  ◌>>=◌,
}
use ohno.Log.{
  set_log_file, global_log, info, Logger, initial, fresh, logname_default, logfile_default, trace,
}
use ohno.Log.Kept.{
  log_info-initial, log_info-Later, set_level-Later, global_log-Later, set_log_file-Tries,
}
use ohno.Registry.{find}
use ohno.Program.Plugin.{get_cni_plugin-Keeps}
use ohno.Cni.{CniConfig, Cni, Parts}
use ohno.Cni.Commands.{add, del, version}
use ohno.Json.Plugin.{CniEnv, default_config, from_config, to_config, to_env, to_result, to_version}
use ohno.Program.{
  Kind, Machine, Process, State, on_logging, on_process, on_world, asks_for_config, log_info,
  set_del, is_deletion, determine_type, generate_empty_config_file, parse_cni_config, parse_cni_env,
  log_json, cni_env, get_cni_plugin, run, plugin_work, configure_logging, dispatch, work, main_body,
  main,
}

module _ {J E K : Type 0} (m : Machine J E K) (name : Bytes) (l : Logger) where
  -- The logger of the name was made.
  abbrev Made : Process J E K → Type 0
  Made p = find name p.logging.loggers ≡ some l

  abbrev MadeFor : State J E K → Type 0
  MadeFor s = Made s.process

  -- A call that logs nothing.
  same : (p : Process J E K) → Made p → Made p
  same p h = h

  log_info-Keeps : Keeps Made log_info
  log_info-Keeps p = (log_info-Later p.logging).after.kept name l

  generate-Keeps : (args : List Bytes) → Keeps Made (generate_empty_config_file m args)
  unfolding generate_empty_config_file
  generate-Keeps args =
      Keeps-if Made (asks_for_config args) _ (pure false)
        (Keeps-bind Made log_info _ log_info-Keeps (λ u.
          Keeps-bind Made (lift (or_throw (m.dump 2 (to_config m.json default_config)))) _ same
            (λ text. same)))
        same

  log_json-Keeps : (json : J) → Keeps Made (log_json m json)
  unfolding log_json
  log_json-Keeps json =
      Keeps-bind Made (on_logging (global_log info)) _
        (λ p. (global_log-Later info p.logging).1.after.kept name l) (λ logger. same)

  parse_cni_config-Keeps : Keeps Made (parse_cni_config m)
  unfolding parse_cni_config
  parse_cni_config-Keeps = Keeps-bind Made (lift m.input) _ same (λ j.
      Keeps-bind Made (lift (from_config m.json default_config j)) _ same (λ c.
        Keeps-bind Made (log_json m (to_config m.json c)) _ (log_json-Keeps (to_config m.json c))
          (λ u. same)))

  parse_cni_env-Keeps : Keeps Made (parse_cni_env m)
  unfolding parse_cni_env
  parse_cni_env-Keeps =
      Keeps-bind Made (log_json m (to_env m.json (cni_env m))) _
        (log_json-Keeps (to_env m.json (cni_env m))) (λ u. same)

  configure_logging-Keeps : (config : CniConfig) → Keeps Made (configure_logging m config)
  unfolding configure_logging
  configure_logging-Keeps config =
      Keeps-bind Made (on_logging (set_log_file m.is_directory m.within config.log)) _
        (λ p.
          (Tries-after (set_log_file m.is_directory m.within config.log p.logging) tt
              (set_log_file-Tries m.is_directory m.within config.log p.logging)).kept
            name l)
        (λ u p. (set_level-Later config.loglevel p.logging).after.kept name l)

  run-Keeps :
      (kind : Kind) (env : CniEnv) (v : Parts E K) (c : Cni) → Keeps Made (run m kind env v c)
  unfolding run
  run-Keeps Kind.addition env v c =
      Keeps-bind Made (on_world c (add v env.container_id env.netns env.ifname)) _ same (λ o.
        Keeps-bind Made (lift (or_throw (m.dump 4 (to_result m.json o.0)))) _ same
          (λ text. Keeps-bind Made log_info _ log_info-Keeps (λ u. same)))
  run-Keeps Kind.deletion env v c =
      Keeps-bind Made (on_world c (del v env.container_id env.ifname)) _ same (λ o. same)
  run-Keeps Kind.versions env v c = Keeps-bind Made (on_world c version) _ same (λ o.
      Keeps-bind Made (lift (or_throw (m.dump 4 (to_version m.json o.0)))) _ same
        (λ text. Keeps-bind Made log_info _ log_info-Keeps (λ u. same)))
  run-Keeps Kind.reserved env v c = same

  plugin_work-Keeps :
      (config : CniConfig) (kind : Kind) (env : CniEnv) → Keeps Made (plugin_work m config kind env)
  unfolding plugin_work
  plugin_work-Keeps config kind env =
      Keeps-bind Made (get_cni_plugin m config) _
        (get_cni_plugin-Keeps m Made (λ e k p h. h) config)
        (λ made.
          Keeps-bind Made (run m kind env made.0 made.1) _ (run-Keeps kind env made.0 made.1)
            (λ u. log_info-Keeps))

  dispatch-Keeps : (config : CniConfig) (env : CniEnv) → Keeps MadeFor (dispatch m config env)
  unfolding dispatch
  dispatch-Keeps config env =
      Keeps-bind MadeFor (lift (determine_type env.command)) _ (λ s h. h)
        (λ kind.
          Keeps-bind MadeFor (if is_deletion kind then set_del else pure tt) _
            (Keeps-if MadeFor (is_deletion kind) set_del (pure tt) (λ s h. h) (λ s h. h))
            (λ u s. plugin_work-Keeps config kind env s.process))

  work-Keeps : Keeps MadeFor (work m)
  unfolding work
  work-Keeps =
      Keeps-bind MadeFor (on_process (parse_cni_config m)) _ (λ s. parse_cni_config-Keeps s.process)
        (λ config.
          Keeps-bind MadeFor (on_process (configure_logging m config)) _
            (λ s. configure_logging-Keeps config s.process)
            (λ u.
              Keeps-bind MadeFor (on_process (parse_cni_env m)) _
                (λ s. parse_cni_env-Keeps s.process) (λ env. dispatch-Keeps config env)))

  rest-Keeps : (b : Bool) → Keeps MadeFor (if b then pure tt else work m)
  rest-Keeps b = Keeps-if MadeFor b (pure tt) (work m) (λ s h. h) work-Keeps

  -- What `main` does behind its first message.
  main_rest-Keeps :
      (args : List Bytes)
      → Keeps MadeFor (do
        generated ← on_process (generate_empty_config_file m args)
        if generated then pure tt else work m)
  main_rest-Keeps args =
      Keeps-bind MadeFor (on_process (generate_empty_config_file m args)) _
        (λ t. generate-Keeps args t.process) rest-Keeps

module _ {J E K : Type 0} (m : Machine J E K) where
  -- The logger that `main` leaves.
  abbrev Found : Outcome (Unit {0}) × State J E K → Type 0
  Found r = find logname_default r.1.process.logging.loggers ≡ some (fresh initial)

  first_message :
      (s : State J E K)
      → s.process.logging ≡ initial
      → Returns
          (on_process log_info s)
          tt
          (λ t. find logname_default t.process.logging.loggers ≡ some (fresh initial))
  first_message s begins =
      subst
        (λ l.
          Returns (on_process log_info (record s { process = record s.process { logging = l } })) tt
            (λ t. find logname_default t.process.logging.loggers ≡ some (fresh initial)))
        (sym begins) (record { result = log_info-initial.result; after = log_info-initial.after })

  -- For every start with the initial state of the logging, whatever the arguments and the
  -- configuration and however `main` ends: the global logger, which it and the functions of its file
  -- write to, is the one that its first message made, with the default file, the level `trace` and
  -- without the standard output.
  pub main-initial :
      (args : List Bytes) (s : State J E K)
      → s.process.logging ≡ initial
      → find logname_default (main m args s).1.process.logging.loggers
        ≡ some (record { file = logfile_default; stdout = false; level = trace })
  unfolding main main_body
  main-initial args s begins =
      Returns-step Found (on_process log_info) _ s (first_message s begins)
        (λ t there. main_rest-Keeps m logname_default (fresh initial) args t there)
