-- ===== src/Backend/HostGw/Itself.antt =====
-- src/backend/host_gw.cc: the handler makes no route to the pods of its own node.
use ohno.Common.{◌≢◌, Bool, not, ◌&&◌, ◌||◌, [], ◌∷◌, if◌then◌else◌}
use ohno.Common.Bytes.{Bytes, empty, eqb}
use ohno.Common.Exec.{Exec, pure, Keeps, Keeps-bind, Keeps-if, ◌>>=◌}
use ohno.Net.Netlink.{RouteNhFlags}
use ohno.Net.Nic.Entries.{add_route, del_route}
use ohno.Ipam.{NodeInfo, get_subnet}
use ohno.Registry.{Map}
use ohno.Backend.{Services, Worker, is_cached, on_etcd, on_nic, remember, forget}
use ohno.Backend.Cache.{Lacks, remember-Keeps, forget-Keeps, other-Keeps}
use ohno.Backend.HostGw.{route_to, add_node, add_nodes, del_nodes, event_handler}

module _ {E K : Type 0} (v : Services E K) (x : Bytes) where
  abbrev routed : Bytes → NodeInfo → Exec (Worker E K) (Unit {0})
  routed name info = do
    added ← on_nic (add_route v.netlink (route_to v info) RouteNhFlags.none)
    if added then remember name info else pure tt

  routed-Keeps : (name : Bytes) (info : NodeInfo) → name ≢ x → Keeps (Lacks x) (routed name info)
  routed-Keeps name info ne =
      Keeps-bind (Lacks x) (on_nic (add_route v.netlink (route_to v info) RouteNhFlags.none)) _
        (λ w h. h)
        (λ added.
          Keeps-if (Lacks x) added (remember name info) (pure tt) (remember-Keeps x name info ne)
            (λ w h. h))

  add_node-Keeps :
      (name : Bytes) (info : NodeInfo) → name ≢ x → Keeps (Lacks x) (add_node v name info)
  unfolding add_node
  add_node-Keeps name info ne =
      Keeps-bind (Lacks x) (on_etcd (get_subnet v.etcd_client name)) _ (λ w h. h)
        (λ subnet. λ w.
          Keeps-if (Lacks x) (not (empty subnet.1) && not (is_cached name w.node_cache))
            (routed name info) (pure tt) (routed-Keeps name info ne) (λ u h. h) w)

  add_nodes-Keeps : (nodes : Map NodeInfo) → Keeps (Lacks x) (add_nodes v x nodes)
  unfolding add_nodes
  add_nodes-Keeps [] = λ w h. h
  add_nodes-Keeps ((name, info) ∷ nodes) =
      Keeps-bind (Lacks x) (if eqb x name then pure tt else add_node v name info) _
        (other-Keeps x name (add_node v name info) (add_node-Keeps name info))
        (λ u. add_nodes-Keeps nodes)

  abbrev dropped : Bytes → NodeInfo → Exec (Worker E K) (Unit {0})
  dropped name info = do
    deleted ← on_nic (del_route v.netlink info.pod_cidr info.internal_ip [])
    if deleted then forget name else pure tt

  dropped-Keeps : (name : Bytes) (info : NodeInfo) → Keeps (Lacks x) (dropped name info)
  dropped-Keeps name info =
      Keeps-bind (Lacks x) (on_nic (del_route v.netlink info.pod_cidr info.internal_ip [])) _
        (λ w h. h)
        (λ deleted.
          Keeps-if (Lacks x) deleted (forget name) (pure tt) (forget-Keeps x name) (λ w h. h))

  del_nodes-Keeps : (gone : Bool) (nodes : Map NodeInfo) → Keeps (Lacks x) (del_nodes v gone nodes)
  unfolding del_nodes
  del_nodes-Keeps gone [] = λ w h. h
  del_nodes-Keeps gone ((name, info) ∷ nodes) =
      Keeps-bind (Lacks x) (on_etcd (get_subnet v.etcd_client name)) _ (λ w h. h)
        (λ subnet.
          Keeps-bind (Lacks x) (if gone || empty subnet.1 then dropped name info else pure tt) _
            (Keeps-if (Lacks x) (gone || empty subnet.1) (dropped name info) (pure tt)
              (dropped-Keeps name info) (λ w h. h))
            (λ u. del_nodes-Keeps gone nodes))

  pub event_handler-Keeps : Keeps (Lacks x) (event_handler v x)
  unfolding event_handler
  event_handler-Keeps =
      Keeps-bind (Lacks x) (on_etcd v.get_kubernetes_data) _ (λ w h. h)
        (λ cluster.
          Keeps-bind (Lacks x) (on_etcd (get_subnet v.etcd_client x)) _ (λ w h. h)
            (λ current.
              Keeps-bind (Lacks x) (if empty current.1 then pure tt else add_nodes v x cluster) _
                (Keeps-if (Lacks x) (empty current.1) (pure tt) (add_nodes v x cluster) (λ w h. h)
                  (add_nodes-Keeps cluster))
                (λ u w. del_nodes-Keeps (empty current.1) w.node_cache w)))
