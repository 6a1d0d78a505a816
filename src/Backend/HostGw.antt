-- ===== src/Backend/HostGw.antt =====
-- src/backend/host_gw.cc: a static route to the pods of every other node.
pub mod Routes
pub mod Handler
pub mod Itself
use ohno.Common.{
  Bool, true, false, not, ◌&&◌, ◌||◌, Option, none, some, List, [], ◌∷◌, if◌then◌else◌,
}
use ohno.Common.Bytes.{Bytes, empty, eqb}
use ohno.Common.Exec.{Exec, Outcome, ok, pure, ◌>>=◌, ◌>>◌}
use ohno.Net.Netlink.{Route, RouteNhFlags}
use ohno.Net.Nic.Entries.{add_route, del_route}
use ohno.Ipam.{NodeInfo, get_subnet}
use ohno.Registry.{Map}
use ohno.Backend.{Services, Worker, is_cached, this, on_etcd, on_nic, remember, forget}

module _ {E K : Type 0} (v : Services E K) where
  -- The route to the pods of a node, by its address.
  pub route_to : NodeInfo → Route
  route_to info = record { dest = info.pod_cidr; via = info.internal_ip; dev = [] }

  -- A node that is stored and was not cached before.
  pub add_node : Bytes → NodeInfo → Exec (Worker E K) (Unit {0})
  unfolding remember route_to
  add_node name info = do
    subnet ← on_etcd (get_subnet v.etcd_client name)
    w ← this
    if not (empty subnet.1) && not (is_cached name w.node_cache)
        then (do
          added ← on_nic (add_route v.netlink (route_to info) RouteNhFlags.none)
          if added then remember name info else pure tt)
        else pure tt

  pub add_nodes : Bytes → Map NodeInfo → Exec (Worker E K) (Unit {0})
  unfolding add_node
  add_nodes current_node [] = pure tt
  add_nodes current_node ((name, info) ∷ nodes) = do
    if eqb current_node name then pure tt else add_node name info
    add_nodes current_node nodes

  -- The entries of the cache, each of which is kept or erased.
  pub del_nodes : Bool → Map NodeInfo → Exec (Worker E K) (Unit {0})
  unfolding forget
  del_nodes current_gone [] = pure tt
  del_nodes current_gone ((name, info) ∷ nodes) = do
    subnet ← on_etcd (get_subnet v.etcd_client name)
    if current_gone || empty subnet.1
        then (do
          deleted ← on_nic (del_route v.netlink info.pod_cidr info.internal_ip [])
          if deleted then forget name else pure tt)
        else pure tt
    del_nodes current_gone nodes

  pub event_handler : Bytes → Exec (Worker E K) (Unit {0})
  unfolding add_nodes del_nodes
  event_handler current_node = do
    cluster ← on_etcd v.get_kubernetes_data
    subnet_cur ← on_etcd (get_subnet v.etcd_client current_node)
    if empty subnet_cur.1 then pure tt else add_nodes current_node cluster
    w ← this
    del_nodes (empty subnet_cur.1) w.node_cache
