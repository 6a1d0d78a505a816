-- ===== src/Net/Netlink.antt =====
-- src/net/netlink/netlink_if.h: the calls of the kernel that interfaces make, and the objects of
-- src/net that they keep.
use ohno.Common.{ℕ, Bool}
use ohno.Common.Bytes.{Bytes}
use ohno.Common.Exec.{Exec}

pub data LinkStatus : Type 0 where
  reserved up down : LinkStatus

pub data RouteNhFlags : Type 0 where
  none onlink pervasive : RouteNhFlags

pub data BridgeAddrGenMode : Type 0 where
  reserved none : BridgeAddrGenMode

-- `Nic::Type`
pub data NicType : Type 0 where
  sys user : NicType

pub record Route : Type 0 where
  pub dest : Bytes
  pub via : Bytes
  pub dev : Bytes

pub record Neigh : Type 0 where
  pub addr : Bytes
  pub mac : Bytes
  pub dev : Bytes

pub record Fdb : Type 0 where
  pub mac : Bytes
  pub underlay_addr : Bytes
  pub dev : Bytes

-- The last name of each call is the network namespace; it is empty in the root namespace.
pub record Netlink (K : Type 0) : Type 0 where
  pub link_destory : Bytes → Bytes → Exec K Bool
  pub link_exist : Bytes → Bytes → Exec K Bool
  pub link_set_status : Bytes → LinkStatus → Bytes → Exec K Bool
  pub link_is_in_netns : Bytes → Bytes → Exec K Bool
  pub link_to_netns : Bytes → Bytes → Exec K Bool
  pub link_rename : Bytes → Bytes → Bytes → Exec K Bool
  pub veth_create : Bytes → Bytes → Exec K Bool
  pub bridge_create : Bytes → Exec K Bool
  pub vxlan_create : Bytes → Bytes → Bytes → Exec K Bool
  pub vrf_create : Bytes → ℕ → Exec K Bool
  pub bridge_set_status : Bytes → Bool → Bytes → BridgeAddrGenMode → Bytes → Exec K Bool
  pub vxlan_set_slave : Bytes → Bool → Bool → Bytes → Exec K Bool
  pub address_is_exist : Bytes → Bytes → Bytes → Exec K Bool
  pub address_set_entry : Bytes → Bytes → Bool → Bytes → Exec K Bool
  pub route_is_exist : Bytes → Bytes → Bytes → Bytes → Exec K Bool
  pub route_set_entry : Bytes → Bytes → Bool → Bytes → Bytes → RouteNhFlags → Exec K Bool
  pub neigh_is_exist : Bytes → Bytes → Bytes → Exec K Bool
  pub neigh_set_entry : Bytes → Bytes → Bool → Bytes → Bytes → Exec K Bool
  pub fdb_is_exist : Bytes → Bytes → Bytes → Bytes → Exec K Bool
  pub fdb_set_entry : Bytes → Bytes → Bytes → Bool → Bytes → Exec K Bool
