-- ===== src/Program/Steps.antt =====
-- src/ohno.cc: `main` up to the choice of the command.
use ohno.Common.{◌≡◌, refl, ◌∙◌, ◌⊎◌, inl, inr, false, List, Option, none, some}
use ohno.Common.Bytes.{Bytes}
use ohno.Common.Exec.{
  Exec, Outcome, ok, fault, exception, lift, Returns, Returns-step, Tries, Tries-cases,
}
use ohno.Log
use ohno.Log.{Logging, Logger, log_path, global_log, set_log_file, set_level, info}
use ohno.Log.Kept.{
  Later, Later-refl, Later-trans, log_info-Later, set_level-Later, global_log-Later,
  set_log_file-Tries,
}
use ohno.Cni.{CniConfig}
use ohno.Json.Plugin.{default_config, from_config, to_config, to_env}
use ohno.Program.{
  Machine, Process, State, on_logging, on_process, log_info, asks_for_config,
  generate_empty_config_file, log_json, dumped, parse_cni_config, configure_logging, parse_cni_env,
  cni_env, dispatch, work, main_body,
}

-- Only the logging differs, and a logger that was made is there.
pub record Alike {J E K : Type 0} (p q : Process J E K) : Type 0 where
  pub etcd : q.etcd ≡ p.etcd
  pub kernel : q.kernel ≡ p.kernel
  pub printed : q.printed ≡ p.printed
  pub written : q.written ≡ p.written
  pub logging : Later p.logging q.logging

-- The flag is the same, too.
pub record Same {J E K : Type 0} (s t : State J E K) : Type 0 where
  pub g_del : t.g_del ≡ s.g_del
  pub process : Alike s.process t.process

module _ {J E K : Type 0} where
  Alike-refl : (p : Process J E K) → Alike p p
  Alike-refl p = record {
    etcd = refl;
    kernel = refl;
    printed = refl;
    written = refl;
    logging = Later-refl p.logging;
  }

  Alike-trans : {p q r : Process J E K} → Alike p q → Alike q r → Alike p r
  Alike-trans h k = record {
    etcd = k.etcd ∙ h.etcd;
    kernel = k.kernel ∙ h.kernel;
    printed = k.printed ∙ h.printed;
    written = k.written ∙ h.written;
    logging = Later-trans h.logging k.logging;
  }

  pub Same-trans : {s t u : State J E K} → Same s t → Same t u → Same s u
  Same-trans h k = record { g_del = k.g_del ∙ h.g_del; process = Alike-trans h.process k.process }

  on_logging-Alike :
      {A : Type 0} (m : Exec Logging A) (p : Process J E K) {a : A}
      → Returns (m p.logging) a (Later p.logging)
      → Returns (on_logging m p) a (Alike p)
  on_logging-Alike m p h = record {
    result = h.result;
    after = record {
      etcd = refl;
      kernel = refl;
      printed = refl;
      written = refl;
      logging = h.after;
    };
  }

  pub on_process-Returns :
      {A : Type 0} {Q : Process J E K → Type 0} (m : Exec (Process J E K) A) (s : State J E K)
      {a : A}
      → Returns (m s.process) a Q
      → Returns (on_process m s) a (λ t. Q t.process)
  on_process-Returns m s h = record { result = h.result; after = h.after }

  on_process-Same :
      {A : Type 0} (m : Exec (Process J E K) A) (s : State J E K) {a : A}
      → Returns (m s.process) a (Alike s.process)
      → Returns (on_process m s) a (Same s)
  on_process-Same m s h = record {
    result = h.result;
    after = record { g_del = refl; process = h.after };
  }

  on_logging-Tries :
      {A U : Type 0} (m : Exec Logging A) (p : Process J E K) {a : A}
      → Tries (m p.logging) a (Later p.logging) U
      → Tries (on_logging m p) a (Alike p) U
  on_logging-Tries m p (inl h) = inl (on_logging-Alike m p h)
  on_logging-Tries m p (inr h) = inr (
    record {
      thrown = h.0.thrown;
      after = record {
        etcd = refl;
        kernel = refl;
        printed = refl;
        written = refl;
        logging = h.0.after;
      };
    },
    h.1,
  )

  on_process-Tries :
      {A U : Type 0} (m : Exec (Process J E K) A) (s : State J E K) {a : A}
      → Tries (m s.process) a (Alike s.process) U
      → Tries (on_process m s) a (Same s) U
  on_process-Tries m s (inl h) = inl (on_process-Same m s h)
  on_process-Tries m s (inr h) =
      inr
        (record { thrown = h.0.thrown; after = record { g_del = refl; process = h.0.after } }, h.1)

  Alike-after :
      {p q : Process J E K} {r : Outcome (Unit {0}) × Process J E K}
      → Alike p q
      → Returns r tt (Alike q)
      → Returns r tt (Alike p)
  Alike-after a h = record { result = h.result; after = Alike-trans a h.after }

  pub log_info-Alike : (p : Process J E K) → Returns (log_info p) tt (Alike p)
  log_info-Alike p = on_logging-Alike Log.log_info p (log_info-Later p.logging)

module _ {J E K : Type 0} (m : Machine J E K) where
  generate_no_file :
      (args : List Bytes) (p : Process J E K)
      → asks_for_config args ≡ false
      → Returns (generate_empty_config_file m args p) false (Alike p)
  unfolding generate_empty_config_file
  generate_no_file args p h = rw h (record { result = refl; after = Alike-refl p })

  -- A text of the configuration or of the environment that is not UTF-8, or a log path of which the
  -- file system cannot tell whether it is a directory.
  abbrev pub Unreadable : CniConfig → Type 0
  Unreadable config =
      (m.dump 2 (to_config m.json config) ≡ none)
      ⊎ (m.is_directory (log_path config.log) ≡ none)
      ⊎ (m.dump 2 (to_env m.json (cni_env m)) ≡ none)

  log_json-Tries :
      (json : J) (p : Process J E K) → Tries (log_json m json p) tt (Alike p) (m.dump 2 json ≡ none)
  unfolding log_json dumped
  log_json-Tries json p =
      let (logger, h) = global_log-Later info p.logging in
      Returns-step (λ r. Tries r tt (Alike p) (m.dump 2 json ≡ none)) (on_logging (global_log info))
        _ p (on_logging-Alike (global_log info) p h) (λ t a. go logger t a (m.dump 2 json) refl)
    where
      go :
          (logger : Option Logger) (t : Process J E K)
          → Alike p t
          → (o : Option Bytes) → m.dump 2 json ≡ o
          → Tries (lift (dumped m json logger) t) tt (Alike p) (m.dump 2 json ≡ none)
      go none t a o e = inl (record { result = refl; after = a })
      go (some l) t a none e = rw e (inr (record { thrown = refl; after = a }, refl))
      go (some l) t a (some text) e = rw e (inl (record { result = refl; after = a }))

  parse_cni_config-Tries :
      (p : Process J E K) {j : J} {config : CniConfig}
      → m.input ≡ ok j
      → from_config m.json default_config j ≡ ok config
      → Tries (parse_cni_config m p) config (Alike p) (m.dump 2 (to_config m.json config) ≡ none)
  unfolding parse_cni_config
  parse_cni_config-Tries p {config = config} given read =
      rw (given, read)
        (Tries-cases (λ r. Tries r config (Alike p) (m.dump 2 (to_config m.json config) ≡ none))
          (log_json m (to_config m.json config)) _ p (log_json-Tries (to_config m.json config) p)
          (λ t a. inl (record { result = refl; after = a }))
          (λ t a u. inr (record { thrown = refl; after = a }, u)))

  parse_cni_env-Tries :
      (p : Process J E K)
      → Tries
          (parse_cni_env m p)
          (cni_env m)
          (Alike p)
          (m.dump 2 (to_env m.json (cni_env m)) ≡ none)
  unfolding parse_cni_env
  parse_cni_env-Tries p =
      let json = to_env m.json (cni_env m) in
      Tries-cases (λ r. Tries r (cni_env m) (Alike p) (m.dump 2 json ≡ none)) (log_json m json) _ p
        (log_json-Tries json p) (λ t a. inl (record { result = refl; after = a }))
        (λ t a u. inr (record { thrown = refl; after = a }, u))

  configure_logging-Tries :
      (config : CniConfig) (p : Process J E K)
      → Tries
          (configure_logging m config p)
          tt
          (Alike p)
          (m.is_directory (log_path config.log) ≡ none)
  unfolding configure_logging
  configure_logging-Tries config p =
      let set = set_log_file m.is_directory m.within config.log in
      Tries-cases (λ r. Tries r tt (Alike p) (m.is_directory (log_path config.log) ≡ none))
        (on_logging set) _ p
        (on_logging-Tries set p (set_log_file-Tries m.is_directory m.within config.log p.logging))
        (λ t a. inl (
          Alike-after a (
            on_logging-Alike (set_level config.loglevel) t
              (set_level-Later config.loglevel t.logging))))
        (λ t a u. inr (record { thrown = refl; after = a }, u))

  -- Up to the choice of the command: it is reached, or an exception is thrown before it.
  pub work-cases :
      (P : Outcome (Unit {0}) × State J E K → Type 0) (s : State J E K) {j : J} {config : CniConfig}
      → m.input ≡ ok j
      → from_config m.json default_config j ≡ ok config
      → ((t : State J E K) → Same s t → P (dispatch m config (cni_env m) t))
      → ((t : State J E K) → Same s t → Unreadable config → P (fault exception, t))
      → P (work m s)
  unfolding work
  work-cases P s {config = config} given read go thrown =
      Tries-cases P (on_process (parse_cni_config m)) _ s
        (on_process-Tries (parse_cni_config m) s (parse_cni_config-Tries s.process given read))
        (λ t a.
          Tries-cases P (on_process (configure_logging m config)) _ t
            (on_process-Tries (configure_logging m config) t
              (configure_logging-Tries config t.process))
            (λ u b.
              Tries-cases P (on_process (parse_cni_env m)) _ u
                (on_process-Tries (parse_cni_env m) u (parse_cni_env-Tries u.process))
                (λ v c. go v (Same-trans a (Same-trans b c)))
                (λ v c e. thrown v (Same-trans a (Same-trans b c)) (inr (inr e))))
            (λ u b e. thrown u (Same-trans a b) (inr (inl e))))
        (λ t a e. thrown t a (inl e))

  -- The same for all of `main`.
  pub main_body-step :
      (P : Outcome (Unit {0}) × State J E K → Type 0) (args : List Bytes) (s : State J E K)
      → asks_for_config args ≡ false
      → ((t : State J E K) → Same s t → P (work m t))
      → P (main_body m args s)
  unfolding main_body
  main_body-step P args s asked k =
      Returns-step P (on_process log_info) _ s
        (on_process-Same log_info s (log_info-Alike s.process))
        (λ t a.
          Returns-step P (on_process (generate_empty_config_file m args)) _ t
            (on_process-Same (generate_empty_config_file m args) t
              (generate_no_file args t.process asked))
            (λ u b. k u (Same-trans a b)))
