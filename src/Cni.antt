-- ===== src/Cni.antt =====
-- src/cni/cni.cc: the plugin's members, the parts of the program that it calls, and how a call of
-- one part changes the whole. The pointers that `main` sets are not null.
pub mod Restore
pub mod Nodes
pub mod Interfaces
pub mod Commands
pub mod Shared
pub mod Holds
use ohno.Common.{ℕ, Bool, true, false, Option, none, some, List, [], ◌∷◌, if◌then◌else◌}
use ohno.Common.Bytes.{Bytes, codes, eqb}
use ohno.Common.Exec.{
  Exec, Outcome, ok, fault, undefined, exception, cni_error, pure, stop, and_then, ◌>>=◌, ◌>>◌,
}
use ohno.Etcd.Client.{EtcdClient}
use ohno.Etcd.Shell.{Shell}
use ohno.Log.{Level}
use ohno.Ipam.{Center}
use ohno.Net.Boost.{Boost}
use ohno.Net.Addr.{Addr}
use ohno.Net.Netlink.{Netlink}
use ohno.Net.Device.{Device}
use ohno.Net.Mac.{Sockets}
use ohno.Registry.{Map, Netns, Node, find}

-- `CniConfigIpam::Mode`
pub data Mode : Type 0 where
  reserved host_gw vxlan evpn : Mode

pub record CniConfigIpam : Type 0 where
  pub subnet : Bytes
  pub mode : Mode

pub record CniConfig : Type 0 where
  pub cni_version : Bytes
  pub name : Bytes
  pub type : Bytes
  pub bridge : Bytes
  pub log : Bytes
  pub loglevel : Level
  pub ssl : Bool
  pub ipam : CniConfigIpam

abbrev pub Pod : Type 0
Pod = Netns Device

abbrev pub KubeNode : Type 0
KubeNode = Node Pod

-- `cluster_` is null until the first command; nothing reads it before it is set.
pub record Cni : Type 0 where
  pub conf : CniConfig
  pub ipam_mode : Mode
  pub cluster : Map KubeNode
  pub gateway : Option Addr
  pub node_name : Bytes
  pub node_underlay_dev : Bytes
  pub node_underlay_addr : Bytes

-- `ipam_` and `storage_` are the `Ipam` and the `Storage` on one ETCD client. `random` draws from the
-- engine of `getUniqueId`.
pub record Parts (E K : Type 0) : Type 0 where
  pub boost : Boost
  pub etcd_client : EtcdClient E
  pub center : Center E
  pub netlink : Netlink K
  pub shell : Shell K
  pub sockets : Sockets K
  pub random : Exec K ℕ

-- The plugin, what ETCD holds, and the system.
pub record World (E K : Type 0) : Type 0 where
  pub cni : Cni
  pub etcd : E
  pub kernel : K

-- `CNI_ERRCODE_OHNO`
abbrev pub cni_errcode_ohno : ℕ
cni_errcode_ohno = 278

-- `ipam::HOST`
abbrev pub host : Bytes
host = codes "host"

-- `net::NAME_VXLAN`
abbrev pub name_vxlan : Bytes
name_vxlan = codes "ohnov"

-- A pointer that is not null.
abbrev pub is_there {ℓ} : {A : Type ℓ} → Option A → Bool
is_there none = false
is_there (some a) = true

-- `setCluster`, `setIpam`, `setStorage` and `setCenter`, and `setNetlink` of the strategies: the
-- pointer is kept, and null is reported.
pub set_part : {A : Type 0} → Option A → Exec (Option A) Bool
set_part part old = (ok (is_there part), part)

-- A shared object is known by the name it has in its map; it is changed where it is.
pub replace {ℓ} : {A : Type ℓ} → Bytes → A → Map A → Map A
replace k a [] = []
replace k a ((j, x) ∷ m) = let rest = replace k a m in if eqb j k then (j, a) ∷ m else (j, x) ∷ rest

module _ {ℓ κ} {A : Type ℓ} {B : Type κ} where
  within_option : Bytes → Option A → Exec A B → Exec (Map A) B
  unfolding replace
  within_option k none m s = (fault undefined, s)
  within_option k (some a) m s = let r = m a in (r.0, replace k r.1 s)

  -- An operation of the object that the map holds under `k`; there is one.
  unfoldable pub within : Bytes → Exec A B → Exec (Map A) B
  unfolding within_option
  within k m s = within_option k (find k s) m s

-- The same with the state of the kernel beside.
module _ {A B K : Type 0} where
  beside_option : Bytes → Option A → Exec (A × K) B → Exec (Map A × K) B
  unfolding replace
  beside_option k none m s = (fault undefined, s)
  beside_option k (some a) m s = let r = m (a, s.1) in (r.0, (replace k r.1.0 s.0, r.1.1))

  unfoldable pub beside : Bytes → Exec (A × K) B → Exec (Map A × K) B
  unfolding beside_option
  beside k m s = beside_option k (find k s.0) m s

module _ {B K : Type 0} where
  -- The maps inside a node and inside a pod.
  abbrev of_netns : Exec (Map Pod × K) B → Exec (KubeNode × K) B
  of_netns m s = let r = m (s.0.netns, s.1) in (r.0, (record s.0 { netns = r.1.0 }, r.1.1))

  abbrev of_nics : Exec (Map Device × K) B → Exec (Pod × K) B
  of_nics m s = let r = m (s.0.nic, s.1) in (r.0, (record s.0 { nic = r.1.0 }, r.1.1))

module _ {B : Type 0} where
  -- An operation of a pod of a node.
  unfoldable pub within_pod : Bytes → Exec Pod B → Exec KubeNode B
  within_pod pod m n = let r = within pod m n.netns in (r.0, record n { netns = r.1 })

module _ {E K : Type 0} where
  abbrev pub this : Exec (World E K) Cni
  this w = (ok w.cni, w)

  abbrev pub change : (Cni → Cni) → Exec (World E K) (Unit {0})
  change g w = (ok tt, record w { cni = g w.cni })

  module _ {ℓ} {A : Type ℓ} where
    abbrev pub on_etcd : Exec E A → Exec (World E K) A
    on_etcd m w = let r = m w.etcd in (r.0, record w { etcd = r.1 })

    abbrev pub on_kernel : Exec K A → Exec (World E K) A
    on_kernel m w = let r = m w.kernel in (r.0, record w { kernel = r.1 })

    abbrev pub on_cluster : Exec (Map KubeNode) A → Exec (World E K) A
    on_cluster m w =
        let r = m w.cni.cluster in (r.0, record w { cni = record w.cni { cluster = r.1 } })

    abbrev pub on_node : Bytes → Exec KubeNode A → Exec (World E K) A
    on_node node m = on_cluster (within node m)

  -- An operation of an interface of a pod of a node.
  abbrev pub on_nic :
      {A : Type 0} → Bytes → Bytes → Bytes → Exec (Device × K) A → Exec (World E K) A
  on_nic node pod nic m w =
      let r =
        beside node (of_netns (beside pod (of_nics (beside nic m)))) (w.cni.cluster, w.kernel) in
      (r.0, record w { cni = record w.cni { cluster = r.1.0 }; kernel = r.1.1 })

  -- An operation of a device that no map holds yet: its result, and the device after it.
  abbrev pub on_device : {A : Type 0} → Device → Exec (Device × K) A → Exec (World E K) (A × Device)
  on_device d m w =
      let r = m (d, w.kernel) in (and_then r.0 (λ a. ok (a, r.1.0)), record w { kernel = r.1.1 })

  -- `if (!done) { throw OHNO_CNIERR(code, ...); }`
  abbrev pub require : ℕ → Bool → Exec (World E K) (Unit {0})
  require code true w = (ok tt, w)
  require code false w = (fault (cni_error code), w)

  -- The same where the format of the text of the error is malformed: `fmt::format` throws instead.
  abbrev pub require_malformed : Bool → Exec (World E K) (Unit {0})
  require_malformed true w = (ok tt, w)
  require_malformed false w = (fault exception, w)

module _ {E K : Type 0} where
  -- `if (!call) { throw OHNO_CNIERR(code, ...); }` for a call of the storage, and for an operation of a
  -- device.
  abbrev pub etcd_or_throw : ℕ → Exec E Bool → Exec (World E K) (Unit {0})
  etcd_or_throw code m = do done ← on_etcd m; require code done

  abbrev pub device_or_throw : ℕ → Device → Exec (Device × K) Bool → Exec (World E K) Device
  device_or_throw code d m = do r ← on_device d m; require code r.0; pure r.1

  abbrev pub etcd_or_malformed : Exec E Bool → Exec (World E K) (Unit {0})
  etcd_or_malformed m = do done ← on_etcd m; require_malformed done

  abbrev pub device_or_malformed : Device → Exec (Device × K) Bool → Exec (World E K) Device
  device_or_malformed d m = do r ← on_device d m; require_malformed r.0; pure r.1
