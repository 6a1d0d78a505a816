-- ===== src/Cni/Interfaces.antt =====
-- src/cni/cni.cc: the interface of a pod, from its creation to its removal.
pub mod Network
pub mod Removal
pub mod Claim
pub mod Restored
pub mod RoundTrip
use ohno.Common.{
  ℕ, zero, suc, ◌%◌, Bool, true, false, not, ◌&&◌, ◌||◌, Option, none, some, List, [], ◌∷◌, ◌++◌,
  if◌then◌else◌,
}
use ohno.Common.Bytes.{Bytes, codes, empty, eqb}
use ohno.Common.Exec.{
  Exec, Outcome, ok, assertion, cni_error, pure, stop, lift, check, and_then, ◌>>=◌, ◌>>◌,
}
use ohno.Helper.Hash.{get_short_hash, ifnamsiz}
use ohno.Net.Boost.{Boost}
use ohno.Net.Addr.{Addr, new, get_addr, get_addr_cidr}
use ohno.Net.Netlink.{up, RouteNhFlags, BridgeAddrGenMode, Route}
use ohno.Net.Nic
use ohno.Net.Nic.Entries
use ohno.Net.Device.{Device, Class, make, of_base, setup, set_status, set_master}
use ohno.Ipam
use ohno.Storage.{given}
use ohno.Storage
use ohno.Registry.{Map, Netns, Node, get_nic, add_nic, del_nic}
use ohno.Registry
use ohno.Cni.{
  Pod, Parts, World, this, on_etcd, on_kernel, on_node, on_device, etcd_or_throw, device_or_throw,
  etcd_or_malformed, device_or_malformed, on_nic, within_pod, require, host, cni_errcode_ohno,
  is_there,
}
use ohno.Cni.Restore.{device_name}
use ohno.Cni.Nodes.{get_kubernetes_node, get_kubernetes_pod, is_vxlan}

is_bridge : Class → Bool
is_bridge Class.bridge = true
is_bridge c = false

-- `dynamic_pointer_cast<Bridge>` of an object that `getNic` found, or did not.
cast_bridge : Option Device → Outcome Bool
unfolding is_bridge
cast_bridge none = Outcome.fault assertion
cast_bridge (some d) = ok (is_bridge d.class)

addr_text : Boost → Option Addr → Outcome Bytes
addr_text b none = ok []
addr_text b (some a) = get_addr_cidr b a

-- `gateway_->getAddr()` behind `OHNO_ASSERT(gateway_)`.
pub gateway_text : Boost → Option Addr → Outcome Bytes
gateway_text b none = Outcome.fault assertion
gateway_text b (some a) = get_addr b a

abbrev pub is_gateway : Option Addr → Bool
is_gateway none = false
is_gateway (some a) = true

abbrev base62 : Bytes
base62 = codes "0123456789ABCDEFGHIJKLMNOPQRSTUVWXYZabcdefghijklmnopqrstuvwxyz"

nth : ℕ → Bytes → Bytes
nth i [] = []
nth zero (c ∷ s) = c ∷ []
nth (suc i) (c ∷ s) = nth i s

module _ {K : Type 0} (random : Exec K ℕ) where
  -- `getUniqueId` in base 62: one draw for each character.
  get_unique_id : ℕ → Exec K Bytes
  unfolding nth
  get_unique_id zero = pure []
  get_unique_id (suc length) = do
    val ← random
    rest ← get_unique_id length
    pure (nth (val % 62) base62 ++ rest)

module _ {E K : Type 0} (v : Parts E K) where
  pub nic_plugin_bridge : Bytes → Exec (World E K) (Unit {0})
  unfolding cast_bridge
  nic_plugin_bridge nic_name = do
    c ← this
    given nic_name
    given c.node_name
    node ← get_kubernetes_node v false
    require cni_errcode_ohno node
    get_kubernetes_pod c.node_name host false
    host_if ← on_node c.node_name (within_pod host (get_nic c.conf.bridge))
    bridge_if ← lift (cast_bridge host_if)
    require 7 bridge_if
    master ←
        on_nic c.node_name host c.conf.bridge
          (set_master v.netlink nic_name BridgeAddrGenMode.reserved)
    require 7 master

  -- The device with its address and its default route. The texts of the last two errors have a
  -- malformed format.
  pub config_pod_network : Device → Bytes → Bytes → Exec (World E K) Device
  unfolding gateway_text
  config_pod_network nic nic_name container_id = do
    c ← this
    given nic_name
    given container_id
    given c.node_name
    check (is_gateway c.gateway)
    pod_addr ← on_etcd (Ipam.allocate_ip v.etcd_client v.boost c.node_name)
    require 7 pod_addr.0
    let addr = new v.boost pod_addr.1
    addressed ← device_or_throw 7 nic (of_base (Entries.add_addr v.netlink v.boost addr))
    etcd_or_throw cni_errcode_ohno
        (Storage.add_addr v.etcd_client v.boost c.node_name container_id nic_name addr)
    route_via ← lift (gateway_text v.boost c.gateway)
    let route : Route = record { dest = []; via = route_via; dev = nic_name }
    routed ←
        device_or_malformed addressed
          (of_base (Entries.add_route v.netlink route RouteNhFlags.none))
    etcd_or_malformed (Storage.add_route v.etcd_client c.node_name container_id nic_name route)
    pure routed

  -- The container that owns a namespace is this one, or there is none.
  pub claim_netns : Bytes → Bytes → Exec (World E K) (Unit {0})
  claim_netns container_id netns = do
    c ← this
    cid ← on_etcd (Storage.get_pod v.etcd_client c.node_name netns)
    require 7 (empty cid || eqb cid container_id)
    etcd_or_throw cni_errcode_ohno (Storage.add_pod v.etcd_client c.node_name netns container_id)
    given netns
    etcd_or_throw cni_errcode_ohno (Storage.add_netns v.etcd_client c.node_name container_id netns)

  -- The veth pair: it is renamed after it was moved into the namespace.
  create_pair : Bytes → Bytes → Bytes → Bytes → Exec (World E K) Device
  unfolding get_unique_id
  create_pair container_id nic_name veth_peer netns = do
    c ← this
    etcd_or_throw cni_errcode_ohno (Storage.add_nic v.etcd_client c.node_name container_id nic_name)
    id ← on_kernel (get_unique_id v.random ifnamsiz)
    named ←
        on_device (make (Class.veth veth_peer))
          (of_base (Nic.set_name v.netlink (codes "ohno_" ++ get_short_hash id)))
    ready ← device_or_throw 7 named.1 (setup v.netlink true)
    moved ← device_or_throw 7 ready (of_base (Nic.set_netns v.netlink netns))
    renamed ← on_device moved (of_base (Nic.rename v.netlink nic_name))
    opened ← on_device renamed.1 (set_status v.netlink up)
    pure opened.1

  -- The interface of the pod `pod` of this node; the callers pass a `NetlinkIf`, a peer and a namespace
  -- exactly when they ask for it to be created.
  pub get_kubernetes_nic : Bytes → Bytes → Bool → Bytes → Bytes → Exec (World E K) (Option Device)
  unfolding create_pair claim_netns
  get_kubernetes_nic pod nic_name get_and_create veth_peer netns = do
    c ← this
    given nic_name
    given c.node_name
    iface ← on_node c.node_name (within_pod pod (get_nic nic_name))
    if is_there iface
        then pure iface
        else if get_and_create
        then (do
          container_id ← on_node c.node_name (within_pod pod (λ p. (ok p.name, p)))
          given container_id
          claim_netns container_id netns
          made ← create_pair container_id nic_name veth_peer netns
          nic_plugin_bridge veth_peer
          full ← config_pod_network made nic_name container_id
          on_node c.node_name (within_pod pod (add_nic device_name full))
          pure (some full))
        else pure none

  -- The address of the underlay interface was not taken from the pool.
  pub release_addr : Bytes → Bytes → Bytes → Exec (World E K) Bool
  release_addr pod_name iface_name pod_addr = do
    c ← this
    if eqb pod_name host && eqb iface_name c.node_underlay_dev
        then pure true
        else on_etcd (Ipam.release_ip v.etcd_client c.node_name pod_addr)

  pub forget_vtep : Exec (World E K) (Unit {0})
  forget_vtep = do
    c ← this
    if is_vxlan c.ipam_mode
        then etcd_or_throw cni_errcode_ohno (Storage.del_vtep v.etcd_client c.node_name)
        else pure tt

  -- What is left of an interface that is found, in the storage and in the pool of addresses.
  pub forget_nic : Bytes → Bytes → Bytes → Bytes → Exec (World E K) (Unit {0})
  unfolding release_addr forget_vtep
  forget_nic pod_name nic_name iface_name pod_addr = do
    c ← this
    _ ← release_addr pod_name iface_name pod_addr
    etcd_or_throw cni_errcode_ohno (Storage.del_addr v.etcd_client c.node_name pod_name nic_name)
    etcd_or_throw cni_errcode_ohno (Storage.del_route v.etcd_client c.node_name pod_name nic_name)
    etcd_or_throw cni_errcode_ohno (Storage.del_nic v.etcd_client c.node_name pod_name nic_name)
    forget_vtep

  del_option : Bytes → Bytes → Option Device → Exec (World E K) (Unit {0})
  unfolding forget_nic addr_text
  del_option pod nic_name none = pure tt
  del_option pod nic_name (some d) = do
    c ← this
    found ← lift (Entries.get_addr v.boost [] d.base)
    pod_addr ← lift (addr_text v.boost found)
    on_nic c.node_name pod nic_name (of_base (Nic.cleanup v.boost v.netlink))
    pod_name ← on_node c.node_name (within_pod pod (λ p. (ok p.name, p)))
    given pod_name
    forget_nic pod_name nic_name d.base.name pod_addr
    on_node c.node_name (within_pod pod (del_nic nic_name))

  pub del_kubernetes_nic : Bytes → Bytes → Exec (World E K) (Unit {0})
  unfolding del_option get_kubernetes_nic
  del_kubernetes_nic pod nic_name = do
    c ← this
    given nic_name
    given c.node_name
    iface ← get_kubernetes_nic pod nic_name false [] []
    del_option pod nic_name iface
