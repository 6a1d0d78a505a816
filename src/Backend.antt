-- ===== src/Backend.antt =====
-- src/backend: what the plugin and its daemon know of Kubernetes, and the routes between nodes. The
-- thread of a backend, which calls `eventHandler` again and again, is Backend/Thread.
pub mod Center
pub mod HostGw
pub mod Thread
pub mod Strategy
pub mod Evpn
pub mod Vxlan
pub mod Cache
use ohno.Common.{Bool, true, false, Option, none, some, List, [], ◌∷◌, if◌then◌else◌}
use ohno.Common.Bytes.{Bytes, empty}
use ohno.Common.Exec.{Exec, Outcome, ok}
use ohno.Etcd.Client.{EtcdClient}
use ohno.Net.Netlink.{Netlink}
use ohno.Net.Nic.{Nic}
use ohno.Ipam.{NodeInfo}
use ohno.Registry.{Map, find, emplace, erase}

-- What a backend calls. `get_kubernetes_data` asks for all nodes; the map that it returns is the list
-- of its entries in the order of the iteration.
pub record Services (E K : Type 0) : Type 0 where
  pub etcd_client : EtcdClient E
  pub netlink : Netlink K
  pub get_kubernetes_data : Exec E (Map NodeInfo)

-- The members that `eventHandler` changes, what ETCD holds, and the system.
pub record Worker (E K : Type 0) : Type 0 where
  pub nic : Nic
  pub node_cache : Map NodeInfo
  pub etcd : E
  pub kernel : K

-- `find(name) != end()`
abbrev pub is_there : Option NodeInfo → Bool
is_there none = false
is_there (some i) = true

abbrev pub is_cached : Bytes → Map NodeInfo → Bool
is_cached name m = is_there (find name m)

module _ {E K : Type 0} where
  abbrev pub this : Exec (Worker E K) (Worker E K)
  this w = (ok w, w)

  module _ {ℓ} {A : Type ℓ} where
    abbrev pub on_etcd : Exec E A → Exec (Worker E K) A
    on_etcd m w = let r = m w.etcd in (r.0, record w { etcd = r.1 })

    abbrev pub on_nic : Exec (Nic × K) A → Exec (Worker E K) A
    on_nic m w = let r = m (w.nic, w.kernel) in (r.0, record w { nic = r.1.0; kernel = r.1.1 })

  pub remember : Bytes → NodeInfo → Exec (Worker E K) (Unit {0})
  remember name info w = (ok tt, record w { node_cache = emplace name info w.node_cache })

  pub forget : Bytes → Exec (Worker E K) (Unit {0})
  forget name w = (ok tt, record w { node_cache = erase name w.node_cache })
