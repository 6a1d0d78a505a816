-- ===== src/Program.antt =====
-- src/ohno.cc: the program that a container runtime calls, from its arguments to its exit status. What
-- the standard error shows is left out; what the clients of ETCD do to the environment when they are
-- made and destroyed is in Etcd/Shell/Life.
pub mod Steps
pub mod Ends
pub mod Plugin
pub mod Prints
pub mod Logger
use ohno.Common.{ℕ, ◌||◌, Bool, true, false, not, Option, none, some, List, [], ◌∷◌, if◌then◌else◌}
use ohno.Common.Bytes.{Bytes, codes, eqb}
use ohno.Common.Exec.{
  Exec, Outcome, ok, fault, exception, cni_error, pure, stop, lift, and_then, or_throw, ◌>>=◌, ◌>>◌,
}
use ohno.Log
use ohno.Log.{Logging, info, global_log, set_log_file, set_level}
use ohno.Etcd.Client.{EtcdClient}
use ohno.Ipam
use ohno.Storage
use ohno.Backend.Center.Nodes.{Api, Access}
use ohno.Backend.Center.Files.{Files, on_host, get_api_server, get_etcd_clusters}
use ohno.Backend.Center.Health.{Disk, new_center, test}
use ohno.Cni.{Mode, CniConfig, Cni, Parts, World, cni_errcode_ohno}
use ohno.Cni.Restore.{parse_config}
use ohno.Cni.Commands.{add, del, version}
use ohno.Json.{Json}
use ohno.Json.Plugin.{CniEnv, default_config, from_config, to_config, to_env, to_result, to_version}

-- `Type`; the names of the source are in upper case.
pub data Kind : Type 0 where
  reserved addition deletion versions : Kind

-- The status of `main`.
pub data Exit : Type 0 where
  success failure : Exit

-- What the program is given: the JSON library with its `dump` by the number of spaces, which throws
-- where a text is not UTF-8, what it parses from the standard input or throws, the file system and
-- the environment, the API server, and the parts of the plugin, by the addresses of ETCD and by the
-- members of the `Center`. `ipam_mode_` is not initialised; `unset` is its value.
pub record Machine (J E K : Type 0) : Type 0 where
  pub json : Json J
  pub dump : ℕ → J → Option Bytes
  pub input : Outcome J
  pub files : Files K
  pub disk : Disk K
  pub is_directory : Bytes → Option Bool
  pub within : Bytes → Bytes → Bytes
  pub api : Api K
  pub parts : Bytes → Access → Parts E K
  pub unset : Mode

-- What ETCD holds, the system, the loggers, the texts on the standard output, and the file
-- `ohno.json`, each as the value that is dumped.
pub record Process (J E K : Type 0) : Type 0 where
  pub etcd : E
  pub kernel : K
  pub logging : Logging
  pub printed : List J
  pub written : Option J

-- `g_del`, and the rest.
pub record State (J E K : Type 0) : Type 0 where
  pub g_del : Bool
  pub process : Process J E K

module _ {J E K : Type 0} where
  module _ {A : Type 0} where
    abbrev pub on_etcd : Exec E A → Exec (Process J E K) A
    on_etcd m p = let r = m p.etcd in (r.0, record p { etcd = r.1 })

    abbrev pub on_kernel : Exec K A → Exec (Process J E K) A
    on_kernel m p = let r = m p.kernel in (r.0, record p { kernel = r.1 })

    abbrev pub on_logging : Exec Logging A → Exec (Process J E K) A
    on_logging m p = let r = m p.logging in (r.0, record p { logging = r.1 })

    -- The plugin is made, works, and is destroyed.
    abbrev pub on_world : Cni → Exec (World E K) A → Exec (Process J E K) (A × Cni)
    on_world c m p =
        let r = m (record { cni = c; etcd = p.etcd; kernel = p.kernel }) in
        (and_then r.0 (λ a. ok (a, r.1.cni)), record p { etcd = r.1.etcd; kernel = r.1.kernel })

    abbrev pub on_process : Exec (Process J E K) A → Exec (State J E K) A
    on_process m s = let r = m s.process in (r.0, record s { process = r.1 })

  abbrev pub print : J → Exec (Process J E K) (Unit {0})
  print j p = (ok tt, record p { printed = j ∷ p.printed })

  abbrev pub write : J → Exec (Process J E K) (Unit {0})
  write j p = (ok tt, record p { written = some j })

  abbrev pub set_del : Exec (State J E K) (Unit {0})
  set_del s = (ok tt, record s { g_del = true })

  abbrev pub log_info : Exec (Process J E K) (Unit {0})
  log_info = on_logging Log.log_info

-- `determineType`
pub determine_type : Bytes → Outcome Kind
determine_type command =
    if eqb command (codes "ADD")
    then ok Kind.addition
    else if eqb command (codes "DEL")
    then ok Kind.deletion
    else if eqb command (codes "CHECK") || eqb command (codes "STATUS") || eqb command (codes "GC")
    then fault (cni_error 287)
    else if eqb command (codes "VERSION")
    then ok Kind.versions
    else ok Kind.reserved

-- `argc > 1 && argv[1] == "--get-conf"`, for the arguments behind the program's name.
unfoldable pub asks_for_config : List Bytes → Bool
asks_for_config [] = false
asks_for_config (arg ∷ args) = eqb arg (codes "--get-conf")

pub is_deletion : Kind → Bool
is_deletion Kind.deletion = true
is_deletion k = false

-- The `catch` clauses of `main`.
pub exit_of : Bool → Outcome (Unit {0}) → Outcome Exit
exit_of g_del (ok u) = ok success
exit_of g_del (fault exception) = ok (if g_del then success else failure)
exit_of g_del (fault (cni_error code)) = ok (if g_del then success else failure)
exit_of g_del (fault e) = fault e

module _ {J E K : Type 0} (m : Machine J E K) where
  pub generate_empty_config_file : List Bytes → Exec (Process J E K) Bool
  unfolding asks_for_config
  generate_empty_config_file args =
      if asks_for_config args
      then (do
        log_info
        let json = to_config m.json default_config
        _ ← lift (or_throw (m.dump 2 json))
        write json
        pure true)
      else pure false

  -- The text of a value is an argument of the message: it is made only if there is a message.
  dumped : J → Option Log.Logger → Outcome (Unit {0})
  dumped json none = ok tt
  dumped json (some logger) = and_then (or_throw (m.dump 2 json)) (λ text. ok tt)

  -- A message with the text of a value.
  pub log_json : J → Exec (Process J E K) (Unit {0})
  unfolding dumped
  log_json json = do logger ← on_logging (global_log info); lift (dumped json logger)

  pub parse_cni_config : Exec (Process J E K) CniConfig
  unfolding log_json
  parse_cni_config = do
    json ← lift m.input
    config ← lift (from_config m.json default_config json)
    log_json (to_config m.json config)
    pure config

  pub cni_env : CniEnv
  cni_env = record {
    command = m.files.env (codes "CNI_COMMAND");
    container_id = m.files.env (codes "CNI_CONTAINERID");
    netns = m.files.env (codes "CNI_NETNS");
    ifname = m.files.env (codes "CNI_IFNAME");
  }

  pub parse_cni_env : Exec (Process J E K) CniEnv
  unfolding log_json
  parse_cni_env = do log_json (to_env m.json cni_env); pure cni_env

  pub new_cni : CniConfig → Cni
  new_cni config = record {
    conf = config;
    ipam_mode = m.unset;
    cluster = [];
    gateway = none;
    node_name = [];
    node_underlay_dev = [];
    node_underlay_addr = [];
  }

  -- ETCD is asked by the client of the IPAM and by the one of the storage.
  pub connect : CniConfig → Parts E K → Exec (Process J E K) (Parts E K × Cni)
  unfolding new_cni
  connect config v = do
    ipam ← on_etcd (Ipam.init v.etcd_client)
    if ipam then pure tt else stop (cni_error cni_errcode_ohno)
    storage ← on_etcd (Storage.init v.etcd_client)
    if storage then pure tt else stop (cni_error cni_errcode_ohno)
    made ← on_world (new_cni config) (parse_config config)
    pure (v, made.1)

  -- The plugin's parts, and its members.
  pub get_cni_plugin : CniConfig → Exec (Process J E K) (Parts E K × Cni)
  unfolding connect
  get_cni_plugin config = do
    api_server ← on_kernel (get_api_server m.files on_host)
    center ← on_kernel (new_center m.files m.disk api_server config.ssl on_host)
    healthy ← on_kernel (test m.api center)
    if healthy then pure tt else stop (cni_error 7)
    etcd_server ← on_kernel (get_etcd_clusters m.files)
    connect config (m.parts etcd_server center)

  -- The `switch` of `main`.
  pub run : Kind → CniEnv → Parts E K → Cni → Exec (Process J E K) (Unit {0})
  run Kind.addition env v c = do
    output ← on_world c (add v env.container_id env.netns env.ifname)
    let json = to_result m.json output.0
    _ ← lift (or_throw (m.dump 4 json))
    log_info
    print json
  run Kind.deletion env v c = do _ ← on_world c (del v env.container_id env.ifname); pure tt
  run Kind.versions env v c = do
    output ← on_world c version
    let json = to_version m.json output.0
    _ ← lift (or_throw (m.dump 4 json))
    log_info
    print json
  run Kind.reserved env v c = stop (cni_error 4)

  pub plugin_work : CniConfig → Kind → CniEnv → Exec (Process J E K) (Unit {0})
  unfolding run
  plugin_work config kind env = do
    made ← get_cni_plugin config
    run kind env made.0 made.1
    log_info

  -- `setLogFile` and `setLevel`
  pub configure_logging : CniConfig → Exec (Process J E K) (Unit {0})
  configure_logging config = do
    on_logging (set_log_file m.is_directory m.within config.log)
    on_logging (set_level config.loglevel)

  -- From the type to the end of the `try`.
  pub dispatch : CniConfig → CniEnv → Exec (State J E K) (Unit {0})
  unfolding plugin_work determine_type
  dispatch config env = do
    kind ← lift (determine_type env.command)
    if is_deletion kind then set_del else pure tt
    on_process (plugin_work config kind env)

  -- From the configuration on.
  pub work : Exec (State J E K) (Unit {0})
  unfolding configure_logging dispatch
  work = do
    config ← on_process parse_cni_config
    on_process (configure_logging config)
    env ← on_process parse_cni_env
    dispatch config env

  pub main_body : List Bytes → Exec (State J E K) (Unit {0})
  unfolding work
  main_body args = do
    on_process log_info
    generated ← on_process (generate_empty_config_file args)
    if generated then pure tt else work

  pub main : List Bytes → Exec (State J E K) Exit
  unfolding main_body exit_of
  main args s = let r = main_body args s in (exit_of r.1.g_del r.0, r.1)
