-- ===== src/Json/Plugin/Given.antt =====
-- src/cni/cni.cc: `parseConfig` of a JSON value.
use ohno.Common.{Option, some, ◌≡◌, ◌↔◌, refl, arith, Bool, true, false, not, ◌⊎◌, inl, inr}
use ohno.Common.Bytes.{Bytes}
use ohno.Common.Exec.{
  Exec, Outcome, ok, fault, exception, cni_error, check, lift, and_then, or_throw, ◌>>=◌, ◌>>◌,
}
use ohno.Cni.{CniConfig, World}
use ohno.Cni.Restore.{parse_config, plugin_name}
use ohno.Cni.Restore.Config.{IsUsable, parse_config_lem}
use ohno.Json.{Json, JsonLaws}
use ohno.Json.Plugin.{default_config, from_config, to_config}
use ohno.Json.Plugin.RoundTrip.{from_config-to_config}

-- What the `try` and its `catch` give; the `catch` dumps the JSON for its message.
pub held : Option Bytes → Outcome (Unit {0}) → Outcome Bool
held dumped (ok u) = ok true
held dumped (fault exception) = and_then (or_throw dumped) (λ text. ok false)
held dumped (fault (cni_error code)) = and_then (or_throw dumped) (λ text. ok false)
held dumped (fault e) = fault e

held_lem :
    (text : Bytes) (o : Outcome (Unit {0}))
    → (o ≡ ok tt) ⊎ (o ≡ fault (cni_error 7))
    → (let r = held (some text) o in
        ((r ≡ ok true) ⊎ (r ≡ ok false)) × ((r ≡ ok true) ↔ (o ≡ ok tt)))
unfolding held
held_lem text o (inl e) = rw e (inl refl, ((λ h. refl), (λ h. refl)))
held_lem text o (inr e) = rw e (inr refl, ((λ h. ground arith), (λ h. ground arith)))

module _ {J E K : Type 0} (j : Json J) (is_empty : J → Bool) (dump : J → Option Bytes) where
  parse_body : J → Exec (World E K) (Unit {0})
  parse_body json = do conf ← lift (from_config j default_config json); parse_config conf

  -- `Cni::parseConfig(const nlohmann::json &)`
  pub parse_json : J → Exec (World E K) Bool
  unfolding parse_body held
  parse_json json = do
    check (not (is_empty json))
    λ w. let r = parse_body json w in (held (dump json) r.0, r.1)

  -- For the JSON of a configuration of this plugin, which is not empty and can be dumped: `parseConfig` returns true
  -- exactly if the bridge has a name without a dash and the mode is a known one, and false otherwise;
  -- the configuration is kept in both cases, and ETCD and the system are not changed.
  pub parse_json-to_config :
      (conf : CniConfig) (text : Bytes) (w : World E K)
      → JsonLaws j
      → is_empty (to_config j conf) ≡ false
      → dump (to_config j conf) ≡ some text
      → conf.type ≡ plugin_name
      → (let r = parse_json (to_config j conf) w in
          ((r.0 ≡ ok true) ⊎ (r.0 ≡ ok false))
          × ((r.0 ≡ ok true) ↔ IsUsable conf)
          × (r.1.cni.conf ≡ conf)
          × (r.1.etcd ≡ w.etcd)
          × (r.1.kernel ≡ w.kernel))
  unfolding parse_json parse_body
  parse_json-to_config conf text w laws full shown ours =
      let (kept, etcd, kernel, others, h) = parse_config_lem conf w in
      let (usable, ends, mode) = h ours in
      let (either, same) = held_lem text (parse_config conf w).0 ends in
      rw (full, shown, from_config-to_config j laws default_config conf)
        (either, ((λ e. usable.0 (same.0 e)), (λ u. same.1 (usable.1 u))), kept, etcd, kernel)
