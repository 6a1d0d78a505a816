-- ===== src/Log/Kept.antt =====
-- src/log/logger.cc: a logger that was made stays as it was made.
use ohno.Common.{
  [], ◌≡◌, refl, sym, ap, ◌∙◌, arith, Bool, Option, none, some, if◌then◌else◌, Bool-cases, leb, inl,
  inr,
}
use ohno.Common.Bytes.{Bytes, empty, codes}
use ohno.Common.Exec.{
  Exec, Outcome, ok, Returns, Returns-bind, Returns-step, Tries, lift, or_throw, pure, ◌>>=◌,
}
use ohno.Registry.{find, emplace}
use ohno.Registry.Lookup.{find-emplace_ne, find-emplace_self}
use ohno.Log.{
  initial, Level, Logger, Logging, fresh, logname_default, global_log, get_logger, set_log_file,
  log_path, set_level, rank, info, log_info,
}

-- Every logger of the one state is in the other.
pub record Later (s t : Logging) : Type 0 where
  pub kept :
      (name : Bytes) (l : Logger) → find name s.loggers ≡ some l → find name t.loggers ≡ some l

pub Later-refl : (s : Logging) → Later s s
Later-refl s = record { kept = λ name l h. h }

pub Later-trans : {s t u : Logging} → Later s t → Later t u → Later s u
Later-trans h k = record { kept = λ name l g. k.kept name l (h.kept name l g) }

no_some : {l : Logger} → none ≡ some l → ⊥
no_some e = ground arith

emplace_kept :
    (key name : Bytes) (l m : Logger) (s : Logging)
    → find key s.loggers ≡ none
    → find name s.loggers ≡ some l
    → find name (emplace key m s.loggers) ≡ some l
emplace_kept key name l m s new h =
    find-emplace_ne key name m s.loggers (λ e. no_some (sym new ∙ ap (λ k. find k s.loggers) e ∙ h))
    ∙ h

name_of : Bytes → Bytes
name_of log_name = if empty log_name then logname_default else log_name

get_logger-Later :
    (name : Bytes) (s : Logging) → (l : Logger) × Returns (get_logger name s) l (Later s)
unfolding get_logger name_of find
get_logger-Later name s = go (find (name_of name) s.loggers) refl
  where
    go :
        (o : Option Logger)
        → find (name_of name) s.loggers ≡ o
        → (l : Logger) × Returns (get_logger name s) l (Later s)
    go none e = (
      fresh s,
      rw (get_logger, e)
          (record {
            result = refl;
            after = record { kept = λ n l h. emplace_kept (name_of name) n l (fresh s) s e h };
          }),
    )
    go (some l) e = (l, rw (get_logger, e) (record { result = refl; after = Later-refl s }))

pub global_log-Later :
    (level : Level) (s : Logging) → (o : Option Logger) × Returns (global_log level s) o (Later s)
unfolding global_log
global_log-Later level s = elim (Bool-cases (leb (rank s.level) (rank level))) [
  | inl e ↦
      let (l, h) = get_logger-Later logname_default s in
      (
        some l,
        rw e (
            Returns-bind (get_logger logname_default) _ s h
              (λ t k. record { result = refl; after = k })),
      )
  | inr e ↦ (none, rw e (record { result = refl; after = Later-refl s }))
]

pub log_info-Later : (s : Logging) → Returns (log_info s) tt (Later s)
unfolding log_info
log_info-Later s =
    let (o, h) = global_log-Later info s in
    Returns-bind (global_log info) (λ l. pure tt) s h (λ t k. record { result = refl; after = k })

pub set_level-Later : (level : Level) (s : Logging) → Returns (set_level level s) tt (Later s)
unfolding set_level
set_level-Later level s = record { result = refl; after = record { kept = λ n l h. h } }

module _ (is_directory : Bytes → Option Bool) (within : Bytes → Bytes → Bytes) where
  announce-Later :
      (file : Bytes) (s : Logging)
      → Returns ((if empty file then pure tt else log_info) s) tt (Later s)
  announce-Later file s = elim (Bool-cases (empty file)) [
    | inl e ↦ rw e (record { result = refl; after = Later-refl s })
    | inr e ↦ rw e (log_info-Later s)
  ]

  -- It throws only where it is not known whether the path is a directory.
  pub set_log_file-Tries :
      (file : Bytes) (s : Logging)
      → Tries
          (set_log_file is_directory within file s)
          tt
          (Later s)
          (is_directory (log_path file) ≡ none)
  unfolding set_log_file
  set_log_file-Tries file s =
      let P : Outcome (Unit {0}) × Logging → Type 0 =
        λ r. Tries r tt (Later s) (is_directory (log_path file) ≡ none) in
      Returns-step P (if empty file then pure tt else log_info) _ s (announce-Later file s)
        (λ t k. go t k (is_directory (log_path file)) refl)
    where
      rest : Bool → Exec Logging (Unit {0})
      rest d u = (
        ok tt,
        record u {
          logfile = if d then within (log_path file) (codes "ohno.log") else log_path file;
        },
      )

      go :
          (t : Logging)
          → Later s t
          → (o : Option Bool) → o ≡ is_directory (log_path file)
          → Tries
              ((lift (or_throw o) >>= rest) t)
              tt
              (Later s)
              (is_directory (log_path file) ≡ none)
      go t k none e = inr (record { thrown = refl; after = k }, sym e)
      go t k (some d) e = inl (record { result = refl; after = record { kept = k.kept } })

-- The first message makes the logger, of the initial values.
pub log_info-initial :
    Returns (log_info initial) tt (λ t. find logname_default t.loggers ≡ some (fresh initial))
unfolding log_info global_log get_logger rank empty find
log_info-initial = record {
  result = refl;
  after = find-emplace_self logname_default (fresh initial) [];
}
