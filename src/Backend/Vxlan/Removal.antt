-- ===== src/Backend/Vxlan/Removal.antt =====
-- src/backend/vxlan.cc: a node whose tunnel end point is gone from the storage.
use ohno.Common.{◌≡◌, refl, Bool, true, false, [], ◌∷◌, ◌||◌, if◌then◌else◌}
use ohno.Common.Bytes.{Bytes, empty}
use ohno.Common.Exec.{Exec, fault, assertion, Returns-fault, pure, ◌>>◌}
use ohno.Etcd.Words.{IsName}
use ohno.Etcd.Client.{EtcdContract, Items, At}
use ohno.Ipam.{NodeInfo}
use ohno.Net.Nic.Entries.Failures.{del_route-no_via}
use ohno.Registry.{Map}
use ohno.Storage.{get_vtep}
use ohno.Storage.Keys.{key_of, vtep}
use ohno.Storage.Removals.{get_vtep-none}
use ohno.Backend.{Services, Worker, on_etcd}
use ohno.Backend.Vxlan.{del_nodes, del_entries, name_vxlan}

module _ {E K : Type 0} (v : Services E K) (k : EtcdContract v.etcd_client) where
  -- The entries of a node without an address are not deleted.
  stops :
      (gone : Bool) (name : Bytes) (info : NodeInfo) (rest : Exec (Worker E K) (Unit {0}))
      (u : Worker E K)
      → (((if gone || empty [] then del_entries v name info [] [] else pure tt) >> rest) u).0
        ≡ fault assertion
  unfolding del_entries empty
  stops true name info rest u =
      rw (del_route-no_via v.netlink info.pod_cidr name_vxlan (u.nic, u.kernel)) refl
  stops false name info rest u =
      rw (del_route-no_via v.netlink info.pod_cidr name_vxlan (u.nic, u.kernel)) refl

  -- While ETCD answers and the name of the node is a plain word without a slash or a comma: where no
  -- tunnel end point is stored for the first node of the list, the deletion loop over the list ends by
  -- a failed assertion, whether or not the current node has a tunnel end point.
  pub del_nodes-gone :
      (current_gone : Bool) (name : Bytes) (info : NodeInfo) (nodes : Map NodeInfo) (f : Items)
      (w : Worker E K)
      → IsName name
      → f (key_of (vtep name)) ≡ []
      → At k f w.etcd
      → (del_nodes v current_gone ((name, info) ∷ nodes) w).0 ≡ fault assertion
  unfolding del_nodes del_entries empty
  del_nodes-gone current_gone name info nodes f w hn none at =
      Returns-fault {Q = λ u. At k f u.etcd} (on_etcd (get_vtep v.etcd_client name)) _ w
        (record {
          result = (get_vtep-none k name name name (hn, hn, hn) f w.etcd none at).result;
          after = (get_vtep-none k name name name (hn, hn, hn) f w.etcd none at).after;
        })
        (λ u ku. stops current_gone name info (del_nodes v current_gone nodes) u)
