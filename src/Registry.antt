-- ===== src/Registry.antt =====
-- src/ipam/cluster.cc, src/ipam/node.cc and src/ipam/netns.cc: the objects of a cluster in memory. Each
-- keeps its parts in a `std::unordered_map` by name; a shared pointer that is not null is its object.
pub mod Lookup
use ohno.Common.{
  ℕ, Bool, true, false, not, Option, none, some, List, [], ◌∷◌, ◌++◌, if◌then◌else◌, length,
}
use ohno.Common.Bytes.{Bytes, empty, eqb}
use ohno.Common.Exec.{Exec, Outcome, ok, fault, pure, lift, check, ◌>>=◌, ◌>>◌}
use ohno.Net.Boost.{Boost}
use ohno.Net.Cidr.{matches_ipv4, matches_ipv6}
use ohno.Net.Subnet.{IpVersion, reserved, ipv4, ipv6, Subnet}
use ohno.Net.Subnet
use ohno.Net.Addr.{Addr, new, get_addr_cidr}

abbrev pub Map {ℓ} : Type ℓ → Type ℓ
Map A = List (Bytes × A)

module _ {ℓ} {A : Type ℓ} where
  unfoldable pub find : Bytes → Map A → Option A
  find k [] = none
  find k ((j, a) ∷ m) = let rest = find k m in if eqb j k then some a else rest

  pub is_some : Option A → Bool
  is_some none = false
  is_some (some a) = true

  -- `emplace` does not overwrite.
  pub emplace : Bytes → A → Map A → Map A
  unfolding find is_some
  emplace k a m = if is_some (find k m) then m else (k, a) ∷ m

  pub erase : Bytes → Map A → Map A
  erase k [] = []
  erase k ((j, a) ∷ m) = let rest = erase k m in if eqb j k then rest else (j, a) ∷ rest

module _ {A : Type 0} where
  -- `Cluster`: its only member is the map of nodes.
  pub add_node : Bytes → A → Exec (Map A) (Unit {0})
  unfolding emplace
  add_node node_name node = do check (not (empty node_name)); λ m. (ok tt, emplace node_name node m)

  pub del_node : Bytes → Exec (Map A) (Unit {0})
  unfolding erase
  del_node node_name = do check (not (empty node_name)); λ m. (ok tt, erase node_name m)

  pub get_node : Bytes → Exec (Map A) (Option A)
  unfolding find
  get_node node_name = do check (not (empty node_name)); λ m. (ok (find node_name m), m)

pub record Netns (A : Type 0) : Type 0 where
  pub name : Bytes
  pub nic : Map A

-- `NicIf::getName` is a parameter of `addNic`.
module _ {A : Type 0} where
  pub add_nic : (A → Bytes) → A → Exec (Netns A) (Unit {0})
  unfolding emplace
  add_nic get_name nic n = (ok tt, record n { nic = emplace (get_name nic) nic n.nic })

  pub del_nic : Bytes → Exec (Netns A) (Unit {0})
  unfolding erase
  del_nic nic_name = do
    check (not (empty nic_name))
    λ n. (ok tt, record n { nic = erase nic_name n.nic })

  pub get_nic : Bytes → Exec (Netns A) (Option A)
  unfolding find
  get_nic nic_name = do check (not (empty nic_name)); λ n. (ok (find nic_name n.nic), n)

pub record Node (A : Type 0) : Type 0 where
  pub name : Bytes
  pub netns : Map A
  pub underlay_addr : Option Addr
  pub underlay_dev : Bytes
  pub subnet : Option Subnet

abbrev no_netns {ℓ} : {A : Type ℓ} → Map A → Bool
no_netns [] = true
no_netns (x ∷ m) = false

is_reserved : IpVersion → Bool
is_reserved reserved = true
is_reserved ipv4 = false
is_reserved ipv6 = false

abbrev version_of : Addr → IpVersion
version_of a = a.ipversion

addr_text : Boost → Option Addr → Outcome Bytes
addr_text b none = ok []
addr_text b (some a) = get_addr_cidr b a

node_subnet : Boost → Option Subnet → Outcome Bytes
node_subnet b none = ok []
node_subnet b (some s) = Subnet.get_subnet b s

-- What a `Subnet::init` that throws leaves in a new object.
version_begun : Bytes → IpVersion
version_begun cidr =
    if matches_ipv4 cidr then ipv4 else if matches_ipv6 cidr then ipv6 else reserved

subnet_begun : Bytes → Outcome Subnet → Subnet
unfolding version_begun
subnet_begun cidr (ok s) = s
subnet_begun cidr (fault e) = record {
  subnet_v4 = record { address = 0; prefix_length = 0 };
  ipversion = version_begun cidr;
}

abbrev done_or : Outcome Subnet → Outcome (Unit {0})
done_or (ok s) = ok tt
done_or (fault e) = fault e

module _ {A : Type 0} where
  -- `netns_.size()`, for a node that has a namespace.
  pub get_netns_size : Exec (Node A) ℕ
  get_netns_size = do (λ n. check (not (no_netns n.netns)) n); λ n. (ok (length n.netns), n)

  pub set_subnet : Boost → Bytes → Exec (Node A) (Unit {0})
  unfolding subnet_begun
  set_subnet b subnet = do
    check (not (empty subnet))
    λ n. (
      done_or (Subnet.init b subnet),
      record n { subnet = some (subnet_begun subnet (Subnet.init b subnet)) },
    )

  pub get_subnet : Boost → Exec (Node A) Bytes
  unfolding node_subnet
  get_subnet b n = (node_subnet b n.subnet, n)

  pub set_name : Bytes → Exec (Node A) (Unit {0})
  set_name node_name = do check (not (empty node_name)); λ n. (ok tt, record n { name = node_name })

  pub add_netns : Bytes → A → Exec (Node A) (Unit {0})
  unfolding emplace
  add_netns netns_name netns = do
    check (not (empty netns_name))
    λ n. (ok tt, record n { netns = emplace netns_name netns n.netns })

  pub del_netns : Bytes → Exec (Node A) (Unit {0})
  unfolding erase
  del_netns netns_name = do
    check (not (empty netns_name))
    λ n. (ok tt, record n { netns = erase netns_name n.netns })

  pub get_netns : Bytes → Exec (Node A) (Option A)
  unfolding find
  get_netns netns_name = do check (not (empty netns_name)); λ n. (ok (find netns_name n.netns), n)

  pub set_underlay_addr : Boost → Bytes → Exec (Node A) (Unit {0})
  unfolding is_reserved
  set_underlay_addr b underlay_addr = do
    check (not (empty underlay_addr))
    λ n. (ok tt, record n { underlay_addr = some (new b underlay_addr) })
    check (not (is_reserved (version_of (new b underlay_addr))))

  pub get_underlay_addr : Boost → Exec (Node A) Bytes
  unfolding addr_text
  get_underlay_addr b n = (addr_text b n.underlay_addr, n)

  pub set_underlay_dev : Bytes → Exec (Node A) (Unit {0})
  set_underlay_dev underlay_dev = do
    check (not (empty underlay_dev))
    λ n. (ok tt, record n { underlay_dev = underlay_dev })
