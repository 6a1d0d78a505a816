-- ===== src/Program/Prints.antt =====
-- src/ohno.cc: what an ADD prints.
use ohno.Common.{
  ◌≡◌, ◌≢◌, ◌⊎◌, inl, inr, refl, sym, ap, ◌∙◌, arith, Bool, false, List, ◌∷◌, Option, none, some,
}
use ohno.Common.Bytes.{Bytes, codes, eqb}
use ohno.Common.Exec.{
  Exec, Outcome, Fault, ok, fault, assertion, undefined, exception, cni_error, continue, Keeps,
  Returns, Returns-bind, Returns-step, Throws, Throws-first, lift, or_throw, ◌>>=◌, ◌>>◌,
}
use ohno.Cni.{CniConfig, Cni, Parts, World}
use ohno.Cni.Commands.{CniResult, add}
use ohno.Json.{JsonLaws}
use ohno.Json.Plugin.{default_config, from_config, from_result, to_result}
use ohno.Json.Plugin.RoundTrip.{from_result-to_result}
use ohno.Program.{
  Kind, success, Machine, Process, State, asks_for_config, cni_env, determine_type, dispatch,
  exit_of, get_cni_plugin, is_deletion, log_info, main, main_body, on_world, plugin_work, print,
  run,
}
use ohno.Program.Plugin.{get_cni_plugin-Keeps}
use ohno.Program.Steps.{Alike, Same-trans, log_info-Alike, main_body-step, work-cases}

determine_type_addition : determine_type (codes "ADD") ≡ ok Kind.addition
unfolding determine_type eqb
determine_type_addition = refl

exit_of_ok : (g_del : Bool) (o : Outcome (Unit {0})) → o ≡ ok tt → exit_of g_del o ≡ ok success
unfolding exit_of
exit_of_ok g_del o h = rw h refl

exit_of_fault : (g_del : Bool) (e : Fault) → g_del ≡ false → exit_of g_del (fault e) ≢ ok success
unfolding exit_of
exit_of_fault g_del assertion off h = ground arith
exit_of_fault g_del undefined off h = ground arith
exit_of_fault g_del exception off h = ground arith
exit_of_fault g_del (cni_error code) off h = ground arith

module _ {J E K : Type 0} (m : Machine J E K) (before : List J) where
  -- One text was printed, which is the JSON of what a call of `add` returned.
  pub record Added (p : Process J E K) : Type 0 where
    pub result : CniResult
    pub parts : Parts E K
    pub world : World E K
    pub added :
        (add parts (cni_env m).container_id (cni_env m).netns (cni_env m).ifname world).0
        ≡ ok result
    pub shown : p.printed ≡ to_result m.json result ∷ before

  -- Nothing was printed.
  abbrev pub Silent : Process J E K → Type 0
  Silent p = p.printed ≡ before

  abbrev Shown : Outcome (Unit {0}) × Process J E K → Type 0
  Shown r = Returns r tt Added ⊎ ((e : Fault) × Throws r e Silent)

  Shown-bind :
      {A : Type 0} (c : Exec (Process J E K) A) (f : A → Exec (Process J E K) (Unit {0}))
      (p : Process J E K)
      → Keeps Silent c
      → Silent p
      → ((a : A) (q : Process J E K) → Silent q → Shown (f a q))
      → Shown ((c >>= f) p)
  Shown-bind {A = A} c f p kept h k = go (c p).0 (c p).1 (kept p h)
    where
      go : (o : Outcome A) (q : Process J E K) → Silent q → Shown (continue o f q)
      go (ok a) q g = k a q g
      go (fault e) q g = inr (e, record { thrown = refl; after = g })

  Added-Alike : {p q : Process J E K} → Alike p q → Added p → Added q
  Added-Alike a h = record {
    result = h.result;
    parts = h.parts;
    world = h.world;
    added = h.added;
    shown = a.printed ∙ h.shown;
  }

  -- A message behind the command.
  Shown-log :
      (c : Exec (Process J E K) (Unit {0})) (p : Process J E K)
      → Shown (c p)
      → Shown ((c >> log_info) p)
  Shown-log c p (inl h) = inl (
      Returns-bind c (λ u. log_info) p h
        (λ q g.
          let l = log_info-Alike q in record { result = l.result; after = Added-Alike l.after g }))
  Shown-log c p (inr (e, h)) = inr (e, Throws-first c (λ u. log_info) p h)

  run-Shown :
      (v : Parts E K) (c : Cni) (p : Process J E K)
      → Silent p
      → Shown (run m Kind.addition (cni_env m) v c p)
  unfolding run
  run-Shown v c p h = go (call w).0 refl
    where
      w : World E K
      w = record { cni = c; etcd = p.etcd; kernel = p.kernel }

      call : Exec (World E K) CniResult
      call = add v (cni_env m).container_id (cni_env m).netns (cni_env m).ifname

      -- The result is dumped before it is printed.
      dumps :
          (a : CniResult)
          → (call w).0 ≡ ok a
          → (q : Process J E K) → Silent q
          → (o : Option Bytes)
          → Shown ((lift (or_throw o) >>= λ text. log_info >> print (to_result m.json a)) q)
      dumps a e q g none = inr (exception, record { thrown = refl; after = g })
      dumps a e q g (some text) = inl (
          Returns-bind log_info _ q (log_info-Alike q) (λ t l. record {
            result = refl;
            after = record {
              result = a;
              parts = v;
              world = w;
              added = e;
              shown = ap (λ x. to_result m.json a ∷ x) (l.printed ∙ g);
            };
          }))

      go : (o : Outcome CniResult) → (call w).0 ≡ o → Shown (run m Kind.addition (cni_env m) v c p)
      go (ok a) e =
          Returns-step {Q = Silent} Shown (on_world c call) _ p {a = (a, (call w).1.cni)}
            (record { result = rw e refl; after = h })
            (λ q g. dumps a e q g (m.dump 4 (to_result m.json a)))
      go (fault x) e =
          inr (x, Throws-first (on_world c call) _ p (record { thrown = rw e refl; after = h }))

  plugin_work-Shown :
      (config : CniConfig) (p : Process J E K)
      → Silent p
      → Shown (plugin_work m config Kind.addition (cni_env m) p)
  unfolding plugin_work
  plugin_work-Shown config p h =
      Shown-bind (get_cni_plugin m config) _ p (get_cni_plugin-Keeps m Silent (λ e k q g. g) config)
        h
        (λ made q g.
          Shown-log (run m Kind.addition (cni_env m) made.0 made.1) q (run-Shown made.0 made.1 q g))

  -- The same of the whole state, with the flag not set.
  abbrev Reported : Outcome (Unit {0}) × State J E K → Type 0
  Reported r = (r.1.g_del ≡ false) × Shown (r.0, r.1.process)

  asked_addition :
      m.files.env (codes "CNI_COMMAND") ≡ codes "ADD"
      → determine_type (cni_env m).command ≡ ok Kind.addition
  unfolding cni_env
  asked_addition command = ap determine_type command ∙ determine_type_addition

  dispatch-Reported :
      (config : CniConfig) (u : State J E K)
      → m.files.env (codes "CNI_COMMAND") ≡ codes "ADD"
      → u.g_del ≡ false
      → Silent u.process
      → Reported (dispatch m config (cni_env m) u)
  unfolding dispatch is_deletion
  dispatch-Reported config u command off h =
      Returns-step {Q = λ t. (t.g_del ≡ false) × Silent t.process} Reported
        (lift (determine_type (cni_env m).command)) _ u
        (record { result = asked_addition command; after = (off, h) })
        (λ t k. (k.0, plugin_work-Shown config t.process k.1))

module _ {J E K : Type 0} (m : Machine J E K) where
  reported :
      (args : List Bytes) (s : State J E K) {j : J} {config : CniConfig}
      → asks_for_config args ≡ false
      → m.input ≡ ok j
      → from_config m.json default_config j ≡ ok config
      → m.files.env (codes "CNI_COMMAND") ≡ codes "ADD"
      → s.g_del ≡ false
      → Reported m s.process.printed (main_body m args s)
  reported args s asked given read command off =
      main_body-step m (Reported m s.process.printed) args s asked (λ t a.
        work-cases m (Reported m s.process.printed) t given read
          (λ u b.
            let c = Same-trans a b in
            dispatch-Reported m s.process.printed _ u command (c.g_del ∙ off) c.process.printed)
          (λ u b reason.
            let c = Same-trans a b in
            (c.g_del ∙ off, inr (exception, record { thrown = refl; after = c.process.printed }))))

  -- For ADD, where the first argument does not ask for a configuration, the standard input is read as
  -- one and `g_del` is not set: `main` ends with success exactly where it has printed one text more,
  -- which is the JSON of a result that `add` returned for the container, the namespace and the
  -- interface of the environment, and is read as that result again; in all other cases, an aborted one
  -- included, it has printed nothing.
  pub main-addition :
      (args : List Bytes) (s : State J E K) {j : J} {config : CniConfig} (old : CniResult)
      → JsonLaws m.json
      → asks_for_config args ≡ false
      → m.input ≡ ok j
      → from_config m.json default_config j ≡ ok config
      → m.files.env (codes "CNI_COMMAND") ≡ codes "ADD"
      → s.g_del ≡ false
      → (let r = main m args s in
          ((r.0 ≡ ok success)
            × ((a : Added m s.process.printed r.1.process) × (from_result m.json old
                    (to_result m.json a.result)
                  ≡ ok a.result)))
          ⊎ ((r.0 ≢ ok success) × Silent m s.process.printed r.1.process))
  unfolding main
  main-addition args s old laws asked given read command off =
      let (kept, shown) = reported args s asked given read command off in
      elim shown [
        | inl h ↦ inl (
          exit_of_ok (main_body m args s).1.g_del (main_body m args s).0 h.result,
          (h.after, from_result-to_result m.json laws old h.after.result),
        )
        | inr (e, h) ↦ inr (
          (λ q.
              exit_of_fault (main_body m args s).1.g_del e kept
                (ap (exit_of (main_body m args s).1.g_del) (sym h.thrown) ∙ q)),
          h.after,
        )
      ]
