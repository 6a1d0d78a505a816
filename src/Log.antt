-- ===== src/Log.antt =====
-- src/log/logger.cc and src/common/enum_name.hpp: the levels and the loggers. A sink is its file and
-- whether the standard output is written too.
pub mod Kept
use ohno.Common.{
  ℕ, ◌≡◌, refl, Bool, true, false, Option, none, some, List, [], ◌∷◌, leb, if◌then◌else◌,
}
use ohno.Common.Bytes.{Bytes, codes, empty, eqb}
use ohno.Common.Exec.{Exec, ok, pure, lift, or_throw, ◌>>=◌, ◌>>◌}
use ohno.Registry.{Map, find, emplace}

-- `Level`
pub data Level : Type 0 where
  trace debug info warn error critical off max_size : Level

-- `enumName` of a level: the library gives the enumerator as it is written.
unfoldable pub level_name : Level → Bytes
level_name trace = codes "trace"
level_name debug = codes "debug"
level_name info = codes "info"
level_name warn = codes "warn"
level_name error = codes "error"
level_name critical = codes "critical"
level_name off = codes "off"
level_name max_size = codes "MAXSIZE"

-- `stringEnum` over the enumerators: the value that has the name.
unfoldable pub named {ℓ} : {A : Type ℓ} → (A → Bytes) → List A → Bytes → Option A
named name [] s = none
named name (a ∷ rest) s = let other = named name rest s in if eqb s (name a) then some a else other

abbrev pub levels : List Level
levels = trace ∷ debug ∷ info ∷ warn ∷ error ∷ critical ∷ off ∷ max_size ∷ []

-- `level_opt.has_value() ? level_opt.value() : fallback`
unfoldable pub level_or : Level → Bytes → Level
unfolding level_name named
level_or fallback s = elim (named level_name levels s) [ none ↦ fallback | some l ↦ l ]

-- The number of an enumerator.
pub rank : Level → ℕ
rank trace = 0
rank debug = 1
rank info = 2
rank warn = 3
rank error = 4
rank critical = 5
rank off = 6
rank max_size = 7

-- `spdlog::logger`: its file, whether it writes to the standard output, and its level.
pub record Logger : Type 0 where
  pub file : Bytes
  pub stdout : Bool
  pub level : Level

-- `g_level`, `g_logfile`, `g_stdout` and `g_map`. `is_directory`, which throws where the file system
-- cannot tell, and the `/` of paths are parameters.
pub record Logging : Type 0 where
  pub level : Level
  pub logfile : Bytes
  pub stdout : Bool
  pub loggers : Map Logger

-- `LOGFILE_DEFAULT` and `LOGNAME_DEFAULT`
abbrev pub logfile_default : Bytes
logfile_default = codes "/var/run/log/ohno.log"

abbrev pub logname_default : Bytes
logname_default = codes "ohno"

-- The initial values.
abbrev pub initial : Logging
initial = record { level = trace; logfile = logfile_default; stdout = false; loggers = [] }

abbrev pub logging : Exec Logging Logging
logging s = (ok s, s)

abbrev change : (Logging → Logging) → Exec Logging (Unit {0})
change f s = (ok tt, f s)

pub set_level : Level → Exec Logging (Unit {0})
set_level level = change (λ s. record s { level = level })

pub set_stdout : Bool → Exec Logging (Unit {0})
set_stdout set = change (λ s. record s { stdout = set })

abbrev pub fresh : Logging → Logger
fresh s = record { file = s.logfile; stdout = s.stdout; level = s.level }

-- The logger of a name, which is made at the first call.
pub get_logger : Bytes → Exec Logging Logger
get_logger log_name s =
    let name = if empty log_name then logname_default else log_name in
    elim (find name s.loggers) [
      | none ↦ (ok (fresh s), record s { loggers = emplace name (fresh s) s.loggers })
      | some l ↦ (ok l, s)
    ]

-- `OHNO_GLOBAL_LOG`: the logger is only asked for where the level is not below the one that is set.
-- It gives the logger that is written to.
pub global_log : Level → Exec Logging (Option Logger)
unfolding get_logger rank
global_log level = do
  s ← logging
  if leb (rank s.level) (rank level)
      then (do l ← get_logger logname_default; pure (some l))
      else pure none

-- A message of a function of this file.
pub log_info : Exec Logging (Unit {0})
unfolding global_log
log_info = do _ ← global_log info; pure tt

-- The path that a configuration asks for.
abbrev pub log_path : Bytes → Bytes
log_path file = if empty file then logfile_default else file

module _ (is_directory : Bytes → Option Bool) (within : Bytes → Bytes → Bytes) where
  -- `setLogFile`: it logs first.
  pub set_log_file : Bytes → Exec Logging (Unit {0})
  unfolding log_info
  set_log_file file = do
    if empty file then pure tt else log_info
    let path = log_path file
    directory ← lift (or_throw (is_directory path))
    let full = if directory then within path (codes "ohno.log") else path
    change (λ s. record s { logfile = full })

  -- `setLevel` of a text logs first, too.
  pub set_level_name : Bytes → Exec Logging (Unit {0})
  unfolding log_info level_or set_level
  set_level_name level_str = do log_info; set_level (level_or trace level_str)

pub level_or-level_name : (fallback l : Level) → level_or fallback (level_name l) ≡ l
unfolding level_or level_name named eqb
level_or-level_name fallback trace = refl
level_or-level_name fallback debug = refl
level_or-level_name fallback info = refl
level_or-level_name fallback warn = refl
level_or-level_name fallback error = refl
level_or-level_name fallback critical = refl
level_or-level_name fallback off = refl
level_or-level_name fallback max_size = refl
