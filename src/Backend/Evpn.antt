-- ===== src/Backend/Evpn.antt =====
-- src/backend/evpn.cc, and getEvpn of src/backend/strategy_client.cc: the four interfaces of the EVPN
-- mode.
use ohno.Common.{true, false, [], if◌then◌else◌}
use ohno.Common.Bytes.{Bytes, codes}
use ohno.Common.Exec.{
  Exec, Outcome, ok, fault, exception, cni_error, pure, stop, and_then, ◌>>=◌, ◌>>◌,
}
use ohno.Etcd.Shell.{Shell}
use ohno.Net.Boost.{Boost}
use ohno.Net.Netlink.{Netlink, up, BridgeAddrGenMode}
use ohno.Net.Nic
use ohno.Net.Device.{
  Device, Class, make, new_vxlan, of_base, setup, set_status, set_master, set_slave,
}
use ohno.Storage.{given}
use ohno.Backend.Center.{get_node_info}

-- The members of `Evpn`, and the system.
pub record Evpn (K : Type 0) : Type 0 where
  pub vrf : Device
  pub bridge_l3 : Device
  pub bridge_l2 : Device
  pub vxlan : Device
  pub kernel : K

-- `BGP_EVPN_VRF`, `BGP_EVPN_BR`, `BGP_EVPN_VTEP` and `VRF_TABLE`
abbrev bgp_evpn_vrf : Bytes
bgp_evpn_vrf = codes "ohnovrf"

abbrev bgp_evpn_br : Bytes
bgp_evpn_br = codes "ohnol3svi"

abbrev bgp_evpn_vtep : Bytes
bgp_evpn_vtep = codes "ohnol3vni"

abbrev vrf_table : Class
vrf_table = Class.vrf 1100

module _ {K : Type 0} where
  abbrev evpn : Exec (Evpn K) (Evpn K)
  evpn e = (ok e, e)

  module _ {A : Type 0} (m : Exec (Device × K) A) where
    abbrev on_vrf : Exec (Evpn K) A
    on_vrf e = let r = m (e.vrf, e.kernel) in (r.0, record e { vrf = r.1.0; kernel = r.1.1 })

    abbrev on_bridge_l3 : Exec (Evpn K) A
    on_bridge_l3 e =
        let r = m (e.bridge_l3, e.kernel) in (r.0, record e { bridge_l3 = r.1.0; kernel = r.1.1 })

    abbrev on_bridge_l2 : Exec (Evpn K) A
    on_bridge_l2 e =
        let r = m (e.bridge_l2, e.kernel) in (r.0, record e { bridge_l2 = r.1.0; kernel = r.1.1 })

    abbrev on_vxlan : Exec (Evpn K) A
    on_vxlan e = let r = m (e.vxlan, e.kernel) in (r.0, record e { vxlan = r.1.0; kernel = r.1.1 })

-- The exceptions that `envCleanup` catches.
caught : Outcome (Unit {0}) → Outcome (Unit {0})
caught (ok u) = ok u
caught (fault exception) = ok tt
caught (fault (cni_error code)) = ok tt
caught (fault e) = fault e

module _ {K : Type 0} (b : Boost) (ntl : Netlink K) where
  -- Each result is logged and not used.
  pub env_setup : Exec (Evpn K) (Unit {0})
  env_setup = do
    e ← evpn
    let vrf_name = e.vrf.base.name
    let bridge_l3_name = e.bridge_l3.base.name
    let bridge_l2_name = e.bridge_l2.base.name
    let vxlan_name = e.vxlan.base.name
    given vrf_name
    given bridge_l3_name
    given bridge_l2_name
    given vxlan_name
    _ ← on_vrf (set_status ntl up)
    _ ← on_bridge_l3 (set_status ntl up)
    _ ← on_bridge_l2 (set_status ntl up)
    _ ← on_vrf (set_master ntl bridge_l3_name BridgeAddrGenMode.none)
    _ ← on_vrf (set_master ntl bridge_l2_name BridgeAddrGenMode.none)
    _ ← on_vxlan (set_status ntl up)
    _ ← on_bridge_l3 (set_master ntl vxlan_name BridgeAddrGenMode.reserved)
    _ ← on_vxlan (set_slave ntl true false)
    pure tt

  cleanup_body : Exec (Evpn K) (Unit {0})
  cleanup_body = do
    on_vrf (of_base (Nic.cleanup b ntl))
    on_bridge_l3 (of_base (Nic.cleanup b ntl))
    on_vxlan (of_base (Nic.cleanup b ntl))

  pub env_cleanup : Exec (Evpn K) (Unit {0})
  unfolding cleanup_body caught
  env_cleanup e = let r = cleanup_body e in (caught r.0, r.1)

  name_and_setup : Bytes → Exec (Device × K) (Unit {0})
  name_and_setup name = do
    of_base (Nic.set_name ntl name)
    ready ← setup ntl true
    if ready then pure tt else stop exception

  -- A named device that is set up, or an exception.
  created : Device → Bytes → Exec K Device
  unfolding name_and_setup
  created d name k = let r = name_and_setup name (d, k) in (and_then r.0 (λ u. ok r.1.0), r.1.1)

  module _ (shell : Shell K) where
    -- `StrategyClient::getEvpn`: the members of the `Evpn` that it returns.
    pub get_evpn : Bytes → Exec K (Device × Device × Device × Device)
    unfolding created
    get_evpn l2svi = do
      given l2svi
      vrf ← created (make vrf_table) bgp_evpn_vrf
      bridge_l3 ← created (make Class.bridge) bgp_evpn_br
      bridge_l2 ← created (make Class.bridge) l2svi
      info ← get_node_info shell (record { node_name = []; underlay_dev = []; underlay_addr = [] })
      if info.0 then pure tt else stop exception
      vxlan ← created (new_vxlan b info.1.underlay_addr info.1.underlay_dev) bgp_evpn_vtep
      pure (vrf, bridge_l3, bridge_l2, vxlan)
