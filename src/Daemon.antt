-- ===== src/Daemon.antt =====
-- src/ohnod/ohnod.cc: the daemon of a node, from its arguments to its exit status. What is printed is left
-- out.
pub mod Options
use ohno.Common.{
  ℕ, ◌==◌, Bool, true, false, not, ◌||◌, Option, none, some, List, [], ◌∷◌, if◌then◌else◌,
}
use ohno.Common.Bytes.{Bytes, codes, empty, eqb}
use ohno.Common.Exec.{
  Exec, Outcome, ok, fault, exception, cni_error, pure, stop, lift, and_then, ◌>>=◌, ◌>>◌,
}
use ohno.Log
use ohno.Log.{Level, Logging, level_or, info}
use ohno.Net.Addr.{stoi}
use ohno.Backend.Center.Files.{in_pod, get_api_server}
use ohno.Backend.Strategy.{BackendInfo, Equipment, Running, execute_strategy, stop_strategy}
use ohno.Program.{Exit, success, failure}

-- `Config`
pub record Config : Type 0 where
  pub bkinfo : BackendInfo
  pub log_level : Level

-- The tests of the loop, in their order. A word that takes a value is only known where one follows.
pub data Word : Type 0 where
  loglevel apiserver insecure interval help unknown : Word

unfoldable pub word_of : Bytes → Word
word_of arg =
    if eqb arg (codes "--loglevel")
    then loglevel
    else if eqb arg (codes "--apiserver")
    then apiserver
    else if eqb arg (codes "--insecure")
    then insecure
    else if eqb arg (codes "--interval")
    then interval
    else if eqb arg (codes "--help")
    then help
    else unknown

-- `DEF_INTERVAL_SEC`
abbrev pub def_interval_sec : ℕ
def_interval_sec = 5

-- The default values.
abbrev pub default : Config
default = record {
  bkinfo = record { api_server = []; ssl = true; refresh_interval = def_interval_sec };
  log_level = info;
}

abbrev pub with_level : Bytes → Config → Config
with_level text c = record c { log_level = level_or c.log_level text }

abbrev pub with_server : Bytes → Config → Config
with_server server c = record c { bkinfo = record c.bkinfo { api_server = server } }

abbrev pub without_ssl : Config → Config
without_ssl c = record c { bkinfo = record c.bkinfo { ssl = false } }

abbrev pub with_interval : ℕ → Config → Config
with_interval n c = record c { bkinfo = record c.bkinfo { refresh_interval = n } }

-- `std::stoi` throws where it reads no number.
interval_of : Option ℕ → Config → Outcome Config
interval_of none c = fault exception
interval_of (some n) c = ok (with_interval n c)

-- How the loop ends: behind the last argument, or by a `return` with an empty address.
pub data Parsed : Type 0 where
  all : Config → Parsed
  early : Config → Parsed

abbrev pub given_up : Config → Outcome Parsed
given_up c = ok (early (with_server [] c))

-- The loop over the arguments behind the program's name.
pub parse_loop : Config → List Bytes → Outcome Parsed
unfolding word_of interval_of
parse_loop c [] = ok (all c)
parse_loop c (arg ∷ []) = elim (word_of arg) [
  | loglevel ↦ given_up c
  | apiserver ↦ given_up c
  | insecure ↦ ok (all (without_ssl c))
  | interval ↦ given_up c
  | help ↦ given_up c
  | unknown ↦ given_up c
]
parse_loop c (arg ∷ value ∷ args) = elim (word_of arg) [
  | loglevel ↦ parse_loop (with_level value c) args
  | apiserver ↦ parse_loop (with_server value c) args
  | insecure ↦ parse_loop (without_ssl c) (value ∷ args)
  | interval ↦ and_then (interval_of (stoi value) c) (λ d. parse_loop d args)
  | help ↦ given_up c
  | unknown ↦ given_up c
]

-- What ETCD holds, the system, the loggers, and `g_client` with the backend that it started.
pub record Daemon (E K : Type 0) : Type 0 where
  pub etcd : E
  pub kernel : K
  pub logging : Logging
  pub g_client : Option (Running E K)

-- `main` has ended, or it waits in `pause`.
pub data Standing : Type 0 where
  exited : Exit → Standing
  paused : Standing

pub caught : Outcome Standing → Outcome Standing
caught (ok s) = ok s
caught (fault exception) = ok (exited failure)
caught (fault (cni_error code)) = ok (exited failure)
caught (fault e) = fault e

module _ {E K : Type 0} where
  abbrev on_logging : Exec Logging (Unit {0}) → Exec (Daemon E K) (Unit {0})
  on_logging m d = let r = m d.logging in (r.0, record d { logging = r.1 })

  abbrev on_kernel : {A : Type 0} → Exec K A → Exec (Daemon E K) A
  on_kernel m d = let r = m d.kernel in (r.0, record d { kernel = r.1 })

  abbrev on_both : {A : Type 0} → Exec (E × K) A → Exec (Daemon E K) A
  on_both m d = let r = m (d.etcd, d.kernel) in (r.0, record d { etcd = r.1.0; kernel = r.1.1 })

  abbrev keep : Running E K → Exec (Daemon E K) (Unit {0})
  keep r d = (ok tt, record d { g_client = some r })

module _ {J E K : Type 0} (q : Equipment J E K) where
  complete : Parsed → Exec (Daemon E K) Config
  complete (early c) = pure c
  complete (all c) =
      if empty c.bkinfo.api_server
      then (do server ← on_kernel (get_api_server q.files in_pod); pure (with_server server c))
      else pure c

  pub parse_arguments : List Bytes → Exec (Daemon E K) Config
  unfolding parse_loop complete
  parse_arguments args = do parsed ← lift (parse_loop default args); complete parsed

  -- The logging, the node's name, and the strategy.
  launch : Config → Exec (Daemon E K) Standing
  launch config = do
    on_logging (Log.set_level config.log_level)
    on_logging (Log.set_stdout true)
    on_logging Log.log_info
    on_logging Log.log_info
    on_logging Log.log_info
    on_logging Log.log_info
    name ← on_kernel (q.shell.execute (codes "hostname"))
    if not name.0 || empty name.1 then stop exception else pure tt
    running ← on_both (execute_strategy q config.bkinfo name.1)
    keep running
    pure paused

  pub main_body : List Bytes → Exec (Daemon E K) Standing
  unfolding launch
  main_body args = do
    config ← parse_arguments args
    if empty config.bkinfo.api_server then pure (exited success) else launch config

  -- Up to `pause`.
  pub main : List Bytes → Exec (Daemon E K) Standing
  unfolding main_body caught
  main args d = let r = main_body args d in (caught r.0, r.1)

  stop_client : Option (Running E K) → Exec (Daemon E K) (Unit {0})
  stop_client none = pure tt
  stop_client (some r) = do
    on_logging Log.log_info
    stopped ← lift (stop_strategy q r)
    keep stopped

  -- `SIGINT` is 2 and `SIGTERM` is 15.
  pub handle_signals : ℕ → Exec (Daemon E K) (Unit {0})
  unfolding stop_client
  handle_signals sig d = (if sig == 15 || sig == 2 then stop_client d.g_client else pure tt) d

  -- `pause` returns behind a handler; `main` ends.
  pub resume : ℕ → Exec (Daemon E K) Standing
  unfolding handle_signals
  resume sig = do handle_signals sig; on_logging Log.log_info; pure (exited success)
