-- ===== src/Backend/Vxlan/Itself.antt =====
-- src/backend/vxlan.cc: the handler makes no route to the pods of its own node.
use ohno.Common.{◌≢◌, Bool, not, ◌&&◌, ◌||◌, [], ◌∷◌, if◌then◌else◌}
use ohno.Common.Bytes.{Bytes, empty, eqb}
use ohno.Common.Exec.{pure, Keeps, Keeps-bind, Keeps-if, ◌>>=◌}
use ohno.Net.Netlink.{RouteNhFlags}
use ohno.Net.Nic.Entries.{add_route, del_route, add_neigh, del_neigh, add_fdb, del_fdb}
use ohno.Ipam.{NodeInfo}
use ohno.Storage.{get_vtep}
use ohno.Registry.{Map}
use ohno.Backend.{Services, is_cached, on_etcd, on_nic, remember}
use ohno.Backend.Cache.{Lacks, remember-Keeps, forget-Keeps, other-Keeps}
use ohno.Backend.Vxlan.{
  name_vxlan, add_forwarding, add_neighbour, add_entries, del_entries, add_node, add_nodes,
  del_nodes, event_handler,
}

module _ {E K : Type 0} (v : Services E K) (x : Bytes) where
  add_forwarding-Keeps :
      (name : Bytes) (info : NodeInfo) (addr mac : Bytes)
      → name ≢ x
      → Keeps (Lacks x) (add_forwarding v name info addr mac)
  unfolding add_forwarding
  add_forwarding-Keeps name info addr mac ne =
      Keeps-bind (Lacks x)
        (on_nic (
          add_fdb v.netlink
            (record { mac = mac; underlay_addr = info.internal_ip; dev = name_vxlan })))
        _ (λ w h. h)
        (λ done.
          Keeps-if (Lacks x) done (remember name info)
            (do
              _ ← on_nic (del_route v.netlink info.pod_cidr addr [])
              _ ← on_nic (del_neigh v.netlink addr mac name_vxlan)
              pure tt)
            (remember-Keeps x name info ne)
            (Keeps-bind (Lacks x) (on_nic (del_route v.netlink info.pod_cidr addr [])) _ (λ w h. h)
              (λ a.
                Keeps-bind (Lacks x) (on_nic (del_neigh v.netlink addr mac name_vxlan))
                  (λ b. pure tt) (λ w h. h) (λ b w h. h))))

  add_neighbour-Keeps :
      (name : Bytes) (info : NodeInfo) (addr mac : Bytes)
      → name ≢ x
      → Keeps (Lacks x) (add_neighbour v name info addr mac)
  unfolding add_neighbour
  add_neighbour-Keeps name info addr mac ne =
      Keeps-bind (Lacks x)
        (on_nic (add_neigh v.netlink (record { addr = addr; mac = mac; dev = name_vxlan }))) _
        (λ w h. h)
        (λ done.
          Keeps-if (Lacks x) done (add_forwarding v name info addr mac)
            (do _ ← on_nic (del_route v.netlink info.pod_cidr addr []); pure tt)
            (add_forwarding-Keeps name info addr mac ne)
            (Keeps-bind (Lacks x) (on_nic (del_route v.netlink info.pod_cidr addr []))
              (λ a. pure tt) (λ w h. h) (λ a w h. h)))

  add_entries-Keeps :
      (name : Bytes) (info : NodeInfo) (addr mac : Bytes)
      → name ≢ x
      → Keeps (Lacks x) (add_entries v name info addr mac)
  unfolding add_entries
  add_entries-Keeps name info addr mac ne =
      Keeps-bind (Lacks x)
        (on_nic (
          add_route v.netlink (record { dest = info.pod_cidr; via = addr; dev = name_vxlan })
            RouteNhFlags.onlink))
        _ (λ w h. h)
        (λ done.
          Keeps-if (Lacks x) done (add_neighbour v name info addr mac) (pure tt)
            (add_neighbour-Keeps name info addr mac ne) (λ w h. h))

  add_node-Keeps :
      (name : Bytes) (info : NodeInfo) → name ≢ x → Keeps (Lacks x) (add_node v name info)
  unfolding add_node
  add_node-Keeps name info ne =
      Keeps-bind (Lacks x) (on_etcd (get_vtep v.etcd_client name)) _ (λ w h. h)
        (λ vtep w.
          Keeps-if (Lacks x) (not (empty vtep.0) && not (is_cached name w.node_cache))
            (add_entries v name info vtep.0 vtep.1) (pure tt)
            (add_entries-Keeps name info vtep.0 vtep.1 ne) (λ u h. h) w)

  add_nodes-Keeps : (nodes : Map NodeInfo) → Keeps (Lacks x) (add_nodes v x nodes)
  unfolding add_nodes
  add_nodes-Keeps [] = λ w h. h
  add_nodes-Keeps ((name, info) ∷ nodes) =
      Keeps-bind (Lacks x) (if eqb x name then pure tt else add_node v name info) _
        (other-Keeps x name (add_node v name info) (add_node-Keeps name info))
        (λ u. add_nodes-Keeps nodes)

  del_entries-Keeps :
      (name : Bytes) (info : NodeInfo) (addr mac : Bytes)
      → Keeps (Lacks x) (del_entries v name info addr mac)
  unfolding del_entries
  del_entries-Keeps name info addr mac =
      Keeps-bind (Lacks x) (on_nic (del_route v.netlink info.pod_cidr addr name_vxlan)) _ (λ w h. h)
        (λ a.
          Keeps-bind (Lacks x) (on_nic (del_neigh v.netlink addr mac name_vxlan)) _ (λ w h. h)
            (λ b.
              Keeps-bind (Lacks x) (on_nic (del_fdb v.netlink info.internal_ip mac name_vxlan)) _
                (λ w h. h) (λ c. forget-Keeps x name)))

  del_nodes-Keeps : (gone : Bool) (nodes : Map NodeInfo) → Keeps (Lacks x) (del_nodes v gone nodes)
  unfolding del_nodes
  del_nodes-Keeps gone [] = λ w h. h
  del_nodes-Keeps gone ((name, info) ∷ nodes) =
      Keeps-bind (Lacks x) (on_etcd (get_vtep v.etcd_client name)) _ (λ w h. h)
        (λ vtep.
          Keeps-bind (Lacks x)
            (if gone || empty vtep.0 then del_entries v name info vtep.0 vtep.1 else pure tt) _
            (Keeps-if (Lacks x) (gone || empty vtep.0) (del_entries v name info vtep.0 vtep.1)
              (pure tt) (del_entries-Keeps name info vtep.0 vtep.1) (λ w h. h))
            (λ u. del_nodes-Keeps gone nodes))

  pub event_handler-Keeps : Keeps (Lacks x) (event_handler v x)
  unfolding event_handler
  event_handler-Keeps =
      Keeps-bind (Lacks x) (on_etcd v.get_kubernetes_data) _ (λ w h. h)
        (λ cluster.
          Keeps-bind (Lacks x) (on_etcd (get_vtep v.etcd_client x)) _ (λ w h. h)
            (λ current.
              Keeps-bind (Lacks x) (if empty current.0 then pure tt else add_nodes v x cluster) _
                (Keeps-if (Lacks x) (empty current.0) (pure tt) (add_nodes v x cluster) (λ w h. h)
                  (add_nodes-Keeps cluster))
                (λ u w. del_nodes-Keeps (empty current.0) w.node_cache w)))
