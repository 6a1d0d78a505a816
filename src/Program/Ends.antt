-- ===== src/Program/Ends.antt =====
-- src/ohno.cc: how `main` ends.
use ohno.Common.{Bool, ◌≡◌, refl, ◌∙◌, true, false, ◌⊎◌, inl, inr, List, some}
use ohno.Common.Bytes.{Bytes, codes, eqb}
use ohno.Common.Exec.{
  Outcome, ok, fault, assertion, undefined, exception, cni_error, Returns, Returns-bind,
}
use ohno.Json.{JsonLaws}
use ohno.Json.Plugin.{default_config, from_config, to_config}
use ohno.Json.Plugin.RoundTrip.{from_config-to_config}
use ohno.Cni.{CniConfig}
use ohno.Program.{
  Kind, success, failure, Machine, Process, State, asks_for_config, cni_env, dispatch,
  determine_type, is_deletion, generate_empty_config_file, on_process, log_info, exit_of, main_body,
  main,
}
use ohno.Program.Steps.{
  Alike, Same, Same-trans, on_process-Returns, Unreadable, work-cases, main_body-step,
  log_info-Alike,
}

exit_of_deletion :
    (g_del : Bool) (o : Outcome (Unit {0}))
    → g_del ≡ true
    → (exit_of g_del o ≡ ok success)
      ⊎ (exit_of g_del o ≡ fault assertion)
      ⊎ (exit_of g_del o ≡ fault undefined)
unfolding exit_of
exit_of_deletion g_del (ok u) h = inl refl
exit_of_deletion g_del (fault assertion) h = inr (inl refl)
exit_of_deletion g_del (fault undefined) h = inr (inr refl)
exit_of_deletion g_del (fault exception) h = inl (rw h refl)
exit_of_deletion g_del (fault (cni_error c)) h = inl (rw h refl)

exit_of_refused :
    (g_del : Bool) (o : Outcome (Unit {0}))
    → g_del ≡ false
    → (o ≡ fault (cni_error 287)) ⊎ (o ≡ fault exception)
    → exit_of g_del o ≡ ok failure
unfolding exit_of
exit_of_refused g_del o off (inl h) = rw (h, off) refl
exit_of_refused g_del o off (inr h) = rw (h, off) refl

exit_of_thrown :
    (g_del : Bool) (o : Outcome (Unit {0}))
    → o ≡ fault exception
    → (exit_of g_del o ≡ ok success) ⊎ (exit_of g_del o ≡ ok failure)
unfolding exit_of
exit_of_thrown true o h = inl (rw h refl)
exit_of_thrown false o h = inr (rw h refl)

-- The commands that are not supported.
pub data IsRefused : Bytes → Type 0 where
  check : IsRefused (codes "CHECK")
  status : IsRefused (codes "STATUS")
  gc : IsRefused (codes "GC")

determine_type-IsRefused :
    (command : Bytes) → IsRefused command → determine_type command ≡ fault (cni_error 287)
unfolding determine_type eqb
determine_type-IsRefused command check = refl
determine_type-IsRefused command status = refl
determine_type-IsRefused command gc = refl

determine_type_deletion : determine_type (codes "DEL") ≡ ok Kind.deletion
unfolding determine_type eqb
determine_type_deletion = refl

module _ {J E K : Type 0} (m : Machine J E K) where
  dispatch_deletion :
      (config : CniConfig) (u : State J E K)
      → m.files.env (codes "CNI_COMMAND") ≡ codes "DEL"
      → (dispatch m config (cni_env m) u).1.g_del ≡ true
  unfolding dispatch cni_env is_deletion
  dispatch_deletion config u command = rw (command, determine_type_deletion) refl

  -- It threw the error, or an exception before it, and only the loggers differ.
  record Refused (s : State J E K) (r : Outcome (Unit {0}) × State J E K) : Type 0 where
    thrown : (r.0 ≡ fault (cni_error 287)) ⊎ (r.0 ≡ fault exception)
    same : Same s r.1

  dispatch-IsRefused :
      (config : CniConfig) (s u : State J E K)
      → IsRefused (m.files.env (codes "CNI_COMMAND"))
      → Same s u
      → Refused s (dispatch m config (cni_env m) u)
  unfolding dispatch cni_env
  dispatch-IsRefused config s u h a =
      rw (determine_type-IsRefused _ h) (record { thrown = inl refl; same = a })

  -- `g_del` is set, or an exception was thrown before that.
  abbrev Asked : CniConfig → State J E K → Outcome (Unit {0}) × State J E K → Type 0
  Asked config s r =
      (r.1.g_del ≡ true) ⊎ ((r.0 ≡ fault exception) × Same s r.1 × Unreadable m config)

  ends :
      (config : CniConfig) (s : State J E K) (r : Outcome (Unit {0}) × State J E K)
      → Asked config s r
      → (exit_of r.1.g_del r.0 ≡ ok success)
        ⊎ (exit_of r.1.g_del r.0 ≡ fault assertion)
        ⊎ (exit_of r.1.g_del r.0 ≡ fault undefined)
        ⊎ ((exit_of r.1.g_del r.0 ≡ ok failure) × Alike s.process r.1.process × Unreadable m config)
  ends config s r (inl set) = elim (exit_of_deletion r.1.g_del r.0 set) [
    | inl h ↦ inl h
    | inr (inl h) ↦ inr (inl h)
    | inr (inr h) ↦ inr (inr (inl h))
  ]
  ends config s r (inr (h, same, reason)) = elim (exit_of_thrown r.1.g_del r.0 h) [
    | inl e ↦ inl e
    | inr e ↦ inr (inr (inr (e, same.process, reason)))
  ]

  -- For every state of ETCD and of the system: if the first argument does not ask for a configuration,
  -- the standard input is read as one, and CNI_COMMAND is "DEL", `main` ends with success, or by a
  -- failed assertion or by undefined behaviour; or it ends with a failure, where the file system
  -- cannot tell whether the log path of the configuration is a directory, or the JSON of the
  -- configuration or of the environment cannot be dumped, and then ETCD, the system, the standard
  -- output and the file are as they were. That spdlog cannot open its file is not modelled; no error
  -- that is modelled makes it end with a failure in another case.
  pub main-deletion :
      (args : List Bytes) (s : State J E K) {j : J} {config : CniConfig}
      → asks_for_config args ≡ false
      → m.input ≡ ok j
      → from_config m.json default_config j ≡ ok config
      → m.files.env (codes "CNI_COMMAND") ≡ codes "DEL"
      → (let r = main m args s in
          (r.0 ≡ ok success)
          ⊎ (r.0 ≡ fault assertion)
          ⊎ (r.0 ≡ fault undefined)
          ⊎ ((r.0 ≡ ok failure) × Alike s.process r.1.process × Unreadable m config))
  unfolding main
  main-deletion args s {config = config} asked given read command =
      ends config s (main_body m args s) (
        main_body-step m (Asked config s) args s asked (λ t a.
          work-cases m (Asked config s) t given read
            (λ u b. inl (dispatch_deletion config u command))
            (λ u b reason. inr (refl, Same-trans a b, reason))))

  -- For CHECK, STATUS and GC, where the first argument does not ask for a configuration, the standard
  -- input is read as one and `g_del` is not set: `main` ends with a failure; ETCD, the system, the
  -- standard output and the file are as they were.
  pub main-IsRefused :
      (args : List Bytes) (s : State J E K) {j : J} {config : CniConfig}
      → asks_for_config args ≡ false
      → m.input ≡ ok j
      → from_config m.json default_config j ≡ ok config
      → IsRefused (m.files.env (codes "CNI_COMMAND"))
      → s.g_del ≡ false
      → Returns (main m args s) failure (λ t. Alike s.process t.process)
  unfolding main
  main-IsRefused args s asked given read command off =
      let h = main_body-step m (Refused s) args s asked (λ t a.
        work-cases m (Refused s) t given read
          (λ u b. dispatch-IsRefused _ s u command (Same-trans a b))
          (λ u b reason. record { thrown = inr refl; same = Same-trans a b })) in
      record {
        result =
            exit_of_refused (main_body m args s).1.g_del (main_body m args s).0 (h.same.g_del ∙ off)
              h.thrown;
        after = h.same.process;
      }

  -- The default configuration was written.
  record Wrote (p q : Process J E K) : Type 0 where
    etcd : q.etcd ≡ p.etcd
    kernel : q.kernel ≡ p.kernel
    printed : q.printed ≡ p.printed
    written : q.written ≡ some (to_config m.json default_config)

  generate_file :
      (text : Bytes) (args : List Bytes) (p q : Process J E K)
      → asks_for_config args ≡ true
      → m.dump 2 (to_config m.json default_config) ≡ some text
      → Alike p q
      → Returns (generate_empty_config_file m args q) true (Wrote p)
  unfolding generate_empty_config_file
  generate_file text args p q asked shown a =
      rw (asked, shown)
        (Returns-bind log_info _ q (log_info-Alike q) (λ t b. record {
          result = refl;
          after = record {
            etcd = b.etcd ∙ a.etcd;
            kernel = b.kernel ∙ a.kernel;
            printed = b.printed ∙ a.printed;
            written = refl;
          };
        }))

  generates :
      (text : Bytes) (args : List Bytes) (s : State J E K)
      → asks_for_config args ≡ true
      → m.dump 2 (to_config m.json default_config) ≡ some text
      → Returns (main_body m args s) tt (λ t. Wrote s.process t.process)
  unfolding main_body
  generates text args s asked shown =
      Returns-bind (on_process log_info) _ s
        (on_process-Returns log_info s (log_info-Alike s.process))
        (λ t a.
          Returns-bind (on_process (generate_empty_config_file m args)) _ t
            (on_process-Returns (generate_empty_config_file m args) t
              (generate_file text args s.process t.process asked shown a))
            (λ u b. record { result = refl; after = b }))

  -- With "--get-conf" for the first argument, where the JSON of the default configuration can be
  -- dumped: `main` ends with success; ETCD, the system and the
  -- standard output are as they were; and what it writes is read as the default configuration,
  -- whatever configuration it is read into.
  pub main-get_conf :
      (args : List Bytes) (s : State J E K) (old : CniConfig) (text : Bytes)
      → JsonLaws m.json
      → asks_for_config args ≡ true
      → m.dump 2 (to_config m.json default_config) ≡ some text
      → Returns (main m args s) success (λ t.
        (t.process.etcd ≡ s.process.etcd)
        × (t.process.kernel ≡ s.process.kernel)
        × (t.process.printed ≡ s.process.printed)
        × ((j : J) × (t.process.written ≡ some j) × (from_config m.json old j ≡ ok default_config)))
  unfolding main exit_of
  main-get_conf args s old text laws asked shown =
      let h = generates text args s asked shown in
      record {
        result = rw h.result refl;
        after = (
          h.after.etcd,
          h.after.kernel,
          h.after.printed,
          (
            to_config m.json default_config,
            h.after.written,
            from_config-to_config m.json laws old default_config,
          ),
        );
      }
