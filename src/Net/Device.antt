-- ===== src/Net/Device.antt =====
-- src/net/underlay.hpp, src/net/bridge.cc, src/net/veth.cc, src/net/vxlan.cc and src/net/vrf.cc: the
-- classes that derive from `Nic`. `setup` and `setStatus` are virtual.

pub mod Setup
use ohno.Common.{ℕ, Bool, true, false, not, [], if◌then◌else◌, ◌&&◌}
use ohno.Common.Bytes.{Bytes, empty}
use ohno.Common.Exec.{Exec, Outcome, ok, fault, pure, check, ◌>>=◌, ◌>>◌}
use ohno.Net.Boost.{Boost}
use ohno.Net.Addr.{new}
use ohno.Net.Addr
use ohno.Net.Netlink.{Netlink, LinkStatus, BridgeAddrGenMode, sys, user, NicType}
use ohno.Net.Nic.{Nic}
use ohno.Net.Nic

-- The dynamic type of an object, with the members that the class adds.
pub data Class : Type 0 where
  plain underlay bridge : Class
  veth : Bytes → Class
  vxlan : Bytes → Bytes → Class
  vrf : ℕ → Class

pub record Device : Type 0 where
  pub class : Class
  pub base : Nic

abbrev type_of : Class → NicType
type_of underlay = sys
type_of c = user

-- An object whose constructor has just run. `LinkStatus status_` has no initial value.
abbrev pub make : Class → Device
make c = record {
  class = c;
  base = record {
    locked = false;
    type = type_of c;
    name = [];
    netns = [];
    status = LinkStatus.reserved;
    addrs = [];
    routes = [];
    neighs = [];
    fdbs = [];
  };
}

-- `Vxlan::Vxlan`: the address without its prefix, or the text as it is if `getAddr` throws.
unfoldable pub new_vxlan : Boost → Bytes → Bytes → Device
new_vxlan b underlay_addr underlay_dev = elim (Addr.get_addr b (new b underlay_addr)) [
  | ok text ↦ make (vxlan text underlay_dev)
  | fault e ↦ make (vxlan underlay_addr underlay_dev)
]

module _ {K : Type 0} where
  -- An operation of the base class.
  abbrev pub of_base {ℓ} : {A : Type ℓ} → Exec (Nic × K) A → Exec (Device × K) A
  of_base m s = let r = m (s.0.base, s.1) in (r.0, (record s.0 { base = r.1.0 }, r.1.1))

  abbrev object : Exec (Device × K) Device
  object s = (ok s.0, s)

-- The assertions of `Vxlan::setup`.
vtep_given : Class → Bool
vtep_given (vxlan underlay_addr underlay_dev) =
    not (empty underlay_addr) && not (empty underlay_dev)
vtep_given c = true

module _ {K : Type 0} (ntl : Netlink K) where
  create_bridge : Bytes → Exec K Bool
  create_bridge name = do
    exists ← ntl.link_exist name []
    if exists then pure true else ntl.bridge_create name

  create_vxlan : Bytes → Bytes → Bytes → Exec K Bool
  create_vxlan underlay_addr underlay_dev name = do
    exists ← ntl.link_exist name []
    if exists then pure true else ntl.vxlan_create name underlay_addr underlay_dev

  create_vrf : ℕ → Bytes → Exec K Bool
  create_vrf table name = do
    exists ← ntl.link_exist name []
    if exists then pure true else ntl.vrf_create name table

  create_veth : Bytes → Bytes → Exec K Bool
  create_veth peer_name name = ntl.veth_create name peer_name

  -- What `setup` does with the kernel: only a veth pair is created without a look whether it exists.
  create_link : Class → Bytes → Exec K Bool
  unfolding create_bridge create_vxlan create_vrf create_veth
  create_link plain name = pure true
  create_link underlay name = pure true
  create_link bridge name = create_bridge name
  create_link (veth peer_name) name = create_veth peer_name name
  create_link (vxlan underlay_addr underlay_dev) name = create_vxlan underlay_addr underlay_dev name
  create_link (vrf table) name = create_vrf table name

  -- The `NetlinkIf` that is passed is alive, or it is not.
  pub setup : Bool → Exec (Device × K) Bool
  unfolding vtep_given create_link
  setup alive = do
    d ← object
    check (vtep_given d.class)
    of_base (Nic.change (λ n. record n { locked = alive }))
    if alive then of_base (Nic.kernel (create_link d.class d.base.name)) else pure false

  peer_status : Class → LinkStatus → Exec K Bool
  peer_status (veth peer_name) status = ntl.link_set_status peer_name status []
  peer_status c status = pure true

  -- `Veth::setStatus` sets the peer first, in the root namespace.
  pub set_status : LinkStatus → Exec (Device × K) Bool
  unfolding peer_status
  set_status status = do
    d ← object
    if d.base.locked
        then (do
          peer ← of_base (Nic.kernel (peer_status d.class status))
          if peer then of_base (Nic.set_status ntl status) else pure false)
        else pure false

  -- `Bridge::setImpl`
  set_impl : Bytes → Bool → BridgeAddrGenMode → Exec (Device × K) Bool
  set_impl nic_name master mode = do
    d ← object
    if d.base.locked
        then of_base
            (Nic.kernel (ntl.bridge_set_status nic_name master d.base.name mode d.base.netns))
        else pure false

  pub set_master : Bytes → BridgeAddrGenMode → Exec (Device × K) Bool
  unfolding set_impl
  set_master nic_name mode = set_impl nic_name true mode

  pub set_no_master : Bytes → BridgeAddrGenMode → Exec (Device × K) Bool
  unfolding set_impl
  set_no_master nic_name mode = set_impl nic_name false mode

  pub set_slave : Bool → Bool → Exec (Device × K) Bool
  set_slave neigh_suppress learning = do
    d ← object
    if d.base.locked
        then of_base
            (Nic.kernel (ntl.vxlan_set_slave d.base.name neigh_suppress learning d.base.netns))
        else pure false
