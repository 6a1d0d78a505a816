-- ===== src/Cni/Restore/Config.antt =====
-- src/cni/cni.cc: which configurations `parseConfig` accepts.
use ohno.Common.{◌≡◌, ◌≢◌, ◌↔◌, refl, true, [], arith, ◌⊎◌}
use ohno.Common.Bytes.{empty_iff, eqb_iff}
use ohno.Common.Exec.{ok, fault, cni_error}
use ohno.Helper.Split.{Lacks}
use ohno.Net.Nic.{has-Lacks}
use ohno.Storage.{separator}
use ohno.Cni.{Mode, CniConfig, World}
use ohno.Cni.Restore.{parse_config, plugin_name, is_reserved}

-- The bridge has a name without the separator of the storage, and the mode is known.
abbrev pub IsUsable : CniConfig → Type 0
IsUsable conf = (conf.bridge ≢ []) × Lacks separator conf.bridge × (conf.ipam.mode ≢ Mode.reserved)

is_reserved_iff : (m : Mode) → (is_reserved m ≡ true) ↔ (m ≡ Mode.reserved)
unfolding is_reserved
is_reserved_iff Mode.reserved = ((λ e. refl), (λ e. refl))
is_reserved_iff Mode.host_gw = ((λ e. cc), (λ e. cc))
is_reserved_iff Mode.vxlan = ((λ e. cc), (λ e. cc))
is_reserved_iff Mode.evpn = ((λ e. cc), (λ e. cc))

module _ {E K : Type 0} where
  -- Every call of `parseConfig` keeps the configuration and changes neither ETCD nor the system. For a
  -- configuration of this plugin it returns exactly if the bridge has a name without a dash and the
  -- mode is a known one, and it throws error 7 otherwise; if it returns, the mode is the one of the
  -- configuration. It returns for every configuration of another plugin.
  pub parse_config_lem :
      (conf : CniConfig) (w : World E K)
      → (let r = parse_config conf w in
          (r.1.cni.conf ≡ conf)
          × (r.1.etcd ≡ w.etcd)
          × (r.1.kernel ≡ w.kernel)
          × (conf.type ≢ plugin_name → r.0 ≡ ok tt)
          × (conf.type ≡ plugin_name
              → ((r.0 ≡ ok tt) ↔ IsUsable conf)
                × ((r.0 ≡ ok tt) ⊎ (r.0 ≡ fault (cni_error 7)))
                × (r.0 ≡ ok tt → r.1.cni.ipam_mode ≡ conf.ipam.mode)))
  unfolding parse_config
  parse_config_lem conf w = ground (
    arith,
    eqb_iff conf.type plugin_name,
    empty_iff conf.bridge,
    has-Lacks separator conf.bridge,
    is_reserved_iff conf.ipam.mode,
  )
