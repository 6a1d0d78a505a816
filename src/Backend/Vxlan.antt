-- ===== src/Backend/Vxlan.antt =====
-- src/backend/vxlan.cc: a route, a neighbour and a forwarding entry for every other node.
pub mod Removal
pub mod Itself
use ohno.Common.{
  Bool, true, false, not, ◌&&◌, ◌||◌, Option, none, some, List, [], ◌∷◌, if◌then◌else◌,
}
use ohno.Common.Bytes.{Bytes, empty, eqb, codes}
use ohno.Common.Exec.{Exec, Outcome, ok, pure, ◌>>=◌, ◌>>◌}
use ohno.Net.Netlink.{RouteNhFlags}
use ohno.Net.Nic.Entries.{add_route, del_route, add_neigh, del_neigh, add_fdb, del_fdb}
use ohno.Ipam.{NodeInfo}
use ohno.Storage.{get_vtep}
use ohno.Registry.{Map}
use ohno.Backend.{Services, Worker, is_cached, this, on_etcd, on_nic, remember, forget}

-- `net::NAME_VXLAN`
abbrev pub name_vxlan : Bytes
name_vxlan = codes "ohnov"

module _ {E K : Type 0} (v : Services E K) where
  -- The forwarding entry; where it fails, the neighbour and the route are taken back.
  add_forwarding : Bytes → NodeInfo → Bytes → Bytes → Exec (Worker E K) (Unit {0})
  unfolding remember
  add_forwarding name info vtep_addr vtep_mac = do
    forwarded ← on_nic (
        add_fdb v.netlink
          (record { mac = vtep_mac; underlay_addr = info.internal_ip; dev = name_vxlan }))
    if forwarded then remember name info else (do
      _ ← on_nic (del_route v.netlink info.pod_cidr vtep_addr [])
      _ ← on_nic (del_neigh v.netlink vtep_addr vtep_mac name_vxlan)
      pure tt)

  -- The neighbour; where it fails, the route is taken back.
  add_neighbour : Bytes → NodeInfo → Bytes → Bytes → Exec (Worker E K) (Unit {0})
  unfolding add_forwarding
  add_neighbour name info vtep_addr vtep_mac = do
    known ←
        on_nic (add_neigh v.netlink (record { addr = vtep_addr; mac = vtep_mac; dev = name_vxlan }))
    if known
        then add_forwarding name info vtep_addr vtep_mac
        else (do _ ← on_nic (del_route v.netlink info.pod_cidr vtep_addr []); pure tt)

  -- The three entries.
  add_entries : Bytes → NodeInfo → Bytes → Bytes → Exec (Worker E K) (Unit {0})
  unfolding add_neighbour
  add_entries name info vtep_addr vtep_mac = do
    routed ← on_nic (
        add_route v.netlink (record { dest = info.pod_cidr; via = vtep_addr; dev = name_vxlan })
          RouteNhFlags.onlink)
    if routed then add_neighbour name info vtep_addr vtep_mac else pure tt

  add_node : Bytes → NodeInfo → Exec (Worker E K) (Unit {0})
  unfolding add_entries
  add_node name info = do
    vtep ← on_etcd (get_vtep v.etcd_client name)
    w ← this
    if not (empty vtep.0) && not (is_cached name w.node_cache)
        then add_entries name info vtep.0 vtep.1
        else pure tt

  add_nodes : Bytes → Map NodeInfo → Exec (Worker E K) (Unit {0})
  unfolding add_node
  add_nodes current_node [] = pure tt
  add_nodes current_node ((name, info) ∷ nodes) = do
    if eqb current_node name then pure tt else add_node name info
    add_nodes current_node nodes

  del_entries : Bytes → NodeInfo → Bytes → Bytes → Exec (Worker E K) (Unit {0})
  unfolding forget
  del_entries name info vtep_addr vtep_mac = do
    _ ← on_nic (del_route v.netlink info.pod_cidr vtep_addr name_vxlan)
    _ ← on_nic (del_neigh v.netlink vtep_addr vtep_mac name_vxlan)
    _ ← on_nic (del_fdb v.netlink info.internal_ip vtep_mac name_vxlan)
    forget name

  pub del_nodes : Bool → Map NodeInfo → Exec (Worker E K) (Unit {0})
  unfolding del_entries
  del_nodes current_gone [] = pure tt
  del_nodes current_gone ((name, info) ∷ nodes) = do
    vtep ← on_etcd (get_vtep v.etcd_client name)
    if current_gone || empty vtep.0 then del_entries name info vtep.0 vtep.1 else pure tt
    del_nodes current_gone nodes

  pub event_handler : Bytes → Exec (Worker E K) (Unit {0})
  unfolding add_nodes del_nodes
  event_handler current_node = do
    cluster ← on_etcd v.get_kubernetes_data
    current ← on_etcd (get_vtep v.etcd_client current_node)
    if empty current.0 then pure tt else add_nodes current_node cluster
    w ← this
    del_nodes (empty current.0) w.node_cache
