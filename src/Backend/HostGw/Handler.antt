-- ===== src/Backend/HostGw/Handler.antt =====
-- src/backend/host_gw.cc: the handler of a node that has a subnet.
use ohno.Common.{◌≡◌, ◌≢◌, refl, sym, subst, true, false, [], ◌∷◌, All, if◌then◌else◌}
use ohno.Common.Bytes.{Bytes, empty}
use ohno.Common.Exec.{Exec, Returns, Returns-bind, Returns-else, pure, ◌>>=◌}
use ohno.Helper.Split.{join}
use ohno.Etcd.Words.{IsName}
use ohno.Etcd.Client.{EtcdContract, Items, At}
use ohno.Ipam.{NodeInfo, get_subnet, subnet_key}
use ohno.Ipam.Subnets.{get_subnet-At, owned}
use ohno.Net.Nic.Entries.{del_route}
use ohno.Net.Nic.Entries.Takes.{Takes}
use ohno.Registry.{Map}
use ohno.Backend.{Services, Worker, is_cached, on_etcd, on_nic, forget}
use ohno.Backend.HostGw.{add_nodes, del_nodes, event_handler}
use ohno.Backend.HostGw.Routes.{IsStored, Known, HasAddress, Goes, add_nodes-cached}

-- Every node that has a stored subnet and is not the current one is in the cache.
abbrev pub Covers : Bytes → Items → Map NodeInfo → Map NodeInfo → Type 0
Covers current f nodes cache =
    All (λ p. p.0 ≢ current → IsStored f p.0 → is_cached p.0 cache ≡ true) nodes

carry :
    (current : Bytes) (f : Items) (less more nodes : Map NodeInfo)
    → ((x : Bytes) → is_cached x less ≡ true → is_cached x more ≡ true)
    → Covers current f nodes less
    → Covers current f nodes more
carry current f less more [] kept h = tt
carry current f less more (p ∷ nodes) kept h =
    ((λ ne s. kept p.0 (h.0 ne s)), carry current f less more nodes kept h.1)

module _ {E K : Type 0} (v : Services E K) (k : EtcdContract v.etcd_client)
    (t : Takes v.netlink) where
  -- The call of `getSubnet` of a node, which only asks.
  asked :
      (name : Bytes) (f : Items) (cache : Map NodeInfo) (w : Worker E K)
      → IsName name
      → Goes v k t f cache w
      → Returns
          (on_etcd (get_subnet v.etcd_client name) w)
          (owned (f (subnet_key name)))
          (Goes v k t f cache)
  asked name f cache w hn (alive, at, kept, known) =
      let r = get_subnet-At k name hn f w.etcd at in
      record { result = r.result; after = (alive, r.after, kept, known) }

  -- What the deletion loop does for an entry, where the node has no subnet.
  abbrev drop_entry : Bytes → NodeInfo → Exec (Worker E K) (Unit {0})
  drop_entry name info = do
    deleted ← on_nic (del_route v.netlink info.pod_cidr info.internal_ip [])
    if deleted then forget name else pure tt

  -- Entries of nodes that have a subnet are not deleted.
  del_nodes-stored :
      (nodes : Map NodeInfo) (f : Items) (cache : Map NodeInfo) (w : Worker E K)
      → All (Known f) nodes
      → Goes v k t f cache w
      → Returns (del_nodes v false nodes w) tt (Goes v k t f cache)
  unfolding del_nodes
  del_nodes-stored [] f cache w h g = record { result = refl; after = g }
  del_nodes-stored ((name, info) ∷ nodes) f cache w h g =
      Returns-bind (on_etcd (get_subnet v.etcd_client name)) _ w (asked name f cache w h.0.0 g)
        (λ u gu.
          Returns-bind {Q = Goes v k t f cache}
            (if empty (join (f (subnet_key name)) b',') then drop_entry name info else pure tt)
            (λ _. del_nodes v false nodes) u
            (Returns-else (empty (join (f (subnet_key name)) b',')) (drop_entry name info) (pure tt)
              u h.0.1 (record { result = refl; after = gu }))
            (λ x gx. del_nodes-stored nodes f cache x h.1 gx))

  -- While ETCD answers, the kernel takes routes and the interface can reach it, and the names of
  -- nodes are plain words without a slash or a comma: where the data of Kubernetes are read, every
  -- node of them has an address that is not empty, a subnet
  -- is stored for the current node and for every node of the cache, the handler returns. Then every
  -- node of the data that has a stored subnet and is not the current one is in the cache, every node
  -- that was in the cache is still in it, every node of the cache has a stored subnet, and no list of
  -- ETCD is written.
  pub event_handler-cached :
      (current : Bytes) (cluster : Map NodeInfo) (f : Items) (w : Worker E K)
      → IsName current
      → IsStored f current
      → All HasAddress cluster
      → All (Known f) w.node_cache
      → w.nic.locked ≡ true
      → At k f w.etcd
      → Returns (v.get_kubernetes_data w.etcd) cluster (At k f)
      → Returns
          (event_handler v current w)
          tt
          (λ u. Goes v k t f w.node_cache u × Covers current f cluster u.node_cache)
  unfolding event_handler
  event_handler-cached current cluster f w hn stored named known alive at answer =
      Returns-bind {Q = Goes v k t f w.node_cache} (on_etcd v.get_kubernetes_data) _ w
        (record { result = answer.result; after = (alive, answer.after, (λ x h. h), known) })
        (λ u gu.
          Returns-bind (on_etcd (get_subnet v.etcd_client current)) _ u
            (asked current f w.node_cache u hn gu)
            (λ x gx.
              Returns-bind
                (if empty (join (f (subnet_key current)) b',')
                  then pure tt
                  else add_nodes v current cluster)
                _ x
                (Returns-else (empty (join (f (subnet_key current)) b',')) (pure tt)
                  (add_nodes v current cluster) x stored
                  (add_nodes-cached v k t current cluster f w.node_cache x named gx))
                (λ y (gy, cached).
                  subst
                    (λ b.
                      Returns (del_nodes v b y.node_cache y) tt
                        (λ z. Goes v k t f w.node_cache z × Covers current f cluster z.node_cache))
                    (sym stored)
                    (let kept =
                        del_nodes-stored y.node_cache f y.node_cache y gy.3
                          (gy.0, gy.1, (λ x h. h), gy.3) in
                      record {
                        result = kept.result;
                        after = (
                          (
                            kept.after.0,
                            kept.after.1,
                            (λ n h. kept.after.2 n (gy.2 n h)),
                            kept.after.3,
                          ),
                          carry current f y.node_cache _ cluster kept.after.2 cached,
                        );
                      }))))
