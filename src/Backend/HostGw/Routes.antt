-- ===== src/Backend/HostGw/Routes.antt =====
-- src/backend/host_gw.cc: after the addition loop, every stored node is cached.
use ohno.Common.{
  ◌≡◌, ◌≢◌, refl, ap, ◌∙◌, sym, Bool, true, false, not, ◌&&◌, [], ◌∷◌, All, inl, inr, Bool-cases,
  if◌then◌else◌,
}
use ohno.Common.Bytes.{Bytes, empty, eqb, eqb_sound}
use ohno.Common.Exec.{Returns, Returns-bind, Returns-then, Returns-else, pure, ◌>>=◌}
use ohno.Helper.Split.{join}
use ohno.Etcd.Words.{IsName}
use ohno.Etcd.Client.{EtcdContract, Items, At}
use ohno.Ipam.{NodeInfo, get_subnet, subnet_key}
use ohno.Ipam.Subnets.{get_subnet-At}
use ohno.Net.Netlink.{RouteNhFlags}
use ohno.Net.Nic.Entries.{add_route}
use ohno.Net.Nic.Entries.Takes.{Takes, add_route-Takes}
use ohno.Registry.{Map}
use ohno.Registry.Lookup.{emplace-All}
use ohno.Backend.{Services, Worker, is_cached, on_etcd, on_nic, remember}
use ohno.Backend.Cache.{emplace_cached, emplace_kept}
use ohno.Backend.HostGw.{add_node, add_nodes, route_to}

-- A subnet is stored for the node.
abbrev pub IsStored : Items → Bytes → Type 0
IsStored f name = empty (join (f (subnet_key name)) b',') ≡ false

-- The entry of a node that has a stored subnet.
abbrev pub Known : Items → Bytes × NodeInfo → Type 0
Known f p = IsName p.0 × IsStored f p.0

-- A plain word names the node, and it has an address.
abbrev pub HasAddress : Bytes × NodeInfo → Type 0
HasAddress p = IsName p.0 × (p.1.internal_ip ≢ [])

module _ {E K : Type 0} (v : Services E K) (k : EtcdContract v.etcd_client)
    (t : Takes v.netlink) where
  -- The interface can reach the kernel, the lists are known, what was cached is cached, and every
  -- cached node has a stored subnet.
  abbrev pub Goes : Items → Map NodeInfo → Worker E K → Type 0
  Goes f cache w =
      (w.nic.locked ≡ true)
      × At k f w.etcd
      × ((x : Bytes) → is_cached x cache ≡ true → is_cached x w.node_cache ≡ true)
      × All (Known f) w.node_cache

  -- The node is new to the cache.
  take_node :
      (name : Bytes) (info : NodeInfo) (f : Items) (cache : Map NodeInfo) (w : Worker E K)
      → Known f (name, info)
      → info.internal_ip ≢ []
      → Goes f cache w
      → Returns
          ((on_nic (add_route v.netlink (route_to v info) RouteNhFlags.none) >>= λ added.
              if added then remember name info else pure tt)
            w)
          tt
          (λ u. Goes f cache u × (is_cached name u.node_cache ≡ true))
  unfolding remember route_to
  take_node name info f cache w new hop (alive, at, kept, known) =
      let added = add_route-Takes t (route_to v info) RouteNhFlags.none w.nic w.kernel alive hop in
      Returns-bind {Q = λ u. Goes f cache u}
        (on_nic (add_route v.netlink (route_to v info) RouteNhFlags.none)) _ w
        (record {
          result = added.result;
          after = (ap (λ n. n.locked) added.after ∙ alive, at, kept, known);
        })
        (λ u (up, at_u, kept_u, known_u). record {
          result = refl;
          after = (
            (
              up,
              at_u,
              (λ x h. emplace_kept name x info u.node_cache (kept_u x h)),
              emplace-All (Known f) name info u.node_cache known_u new,
            ),
            emplace_cached name info u.node_cache,
          );
        })

  add_node-cached :
      (name : Bytes) (info : NodeInfo) (f : Items) (cache : Map NodeInfo) (w : Worker E K)
      → HasAddress (name, info)
      → Goes f cache w
      → Returns
          (add_node v name info w)
          tt
          (λ u. Goes f cache u × (IsStored f name → is_cached name u.node_cache ≡ true))
  unfolding add_node
  add_node-cached name info f cache w hn (alive, at, kept, known) =
      let asked = get_subnet-At k name hn.0 f w.etcd at in
      Returns-bind {Q = λ u. Goes f cache u} (on_etcd (get_subnet v.etcd_client name)) _ w
        (record { result = asked.result; after = (alive, asked.after, kept, known) })
        (λ u gu.
          decide u gu (empty (join (f (subnet_key name)) b',')) (is_cached name u.node_cache) refl
            refl)
    where
      decide :
          (u : Worker E K)
          → Goes f cache u
          → (unstored cached : Bool) → unstored ≡ empty (join (f (subnet_key name)) b',')
          → cached ≡ is_cached name u.node_cache
          → Returns
              ((if not unstored && not cached
                  then (do
                    added ← on_nic (add_route v.netlink (route_to v info) RouteNhFlags.none)
                    if added then remember name info else pure tt)
                  else pure tt)
                u)
              tt
              (λ z. Goes f cache z × (IsStored f name → is_cached name z.node_cache ≡ true))
      decide u gu false false e c =
          let taken = take_node name info f cache u (hn.0, sym e) hn.1 gu in
          record { result = taken.result; after = (taken.after.0, λ stored. taken.after.1) }
      decide u gu true cached e c = record { result = refl; after = (gu, λ stored. cc) }
      decide u gu false true e c = record { result = refl; after = (gu, λ stored. sym c) }

  -- One round of the loop.
  step :
      (current name : Bytes) (info : NodeInfo) (f : Items) (cache : Map NodeInfo) (w : Worker E K)
      → HasAddress (name, info)
      → Goes f cache w
      → Returns ((if eqb current name then pure tt else add_node v name info) w) tt (λ u.
        Goes f cache u × (name ≢ current → IsStored f name → is_cached name u.node_cache ≡ true))
  step current name info f cache w hn g = elim (Bool-cases (eqb current name)) [
    | inl e ↦
        Returns-then (eqb current name) (pure tt) (add_node v name info) w e (record {
          result = refl;
          after = (g, λ ne. absurd (ne (sym (eqb_sound current name e))));
        })
    | inr e ↦ Returns-else (eqb current name) (pure tt) (add_node v name info) w e (
        let added = add_node-cached name info f cache w hn g in
        record { result = added.result; after = (added.after.0, λ ne. added.after.1) })
  ]

  -- While ETCD answers and the kernel takes routes, for an interface that can reach the kernel,
  -- nodes with an address whose names are plain words without a slash or a comma and a cache of nodes with stored
  -- subnets: the addition loop returns; every node of the list that has a stored subnet and is not the
  -- current one is then in the cache, every node that was in the cache is still in it, and no list of
  -- ETCD is written.
  pub add_nodes-cached :
      (current : Bytes) (nodes : Map NodeInfo) (f : Items) (cache : Map NodeInfo) (w : Worker E K)
      → All HasAddress nodes
      → Goes f cache w
      → Returns (add_nodes v current nodes w) tt (λ u.
        Goes f cache u
        × All (λ p. p.0 ≢ current → IsStored f p.0 → is_cached p.0 u.node_cache ≡ true) nodes)
  unfolding add_nodes
  add_nodes-cached current [] f cache w named g = record { result = refl; after = (g, tt) }
  add_nodes-cached current ((name, info) ∷ nodes) f cache w named g =
      Returns-bind (if eqb current name then pure tt else add_node v name info) _ w
        (step current name info f cache w named.0 g)
        (λ u (gu, first).
          let rest =
            add_nodes-cached current nodes f u.node_cache u named.1
              (gu.0, gu.1, (λ x h. h), gu.3) in
          record {
            result = rest.result;
            after = (
              (
                rest.after.0.0,
                rest.after.0.1,
                (λ x h. rest.after.0.2 x (gu.2 x h)),
                rest.after.0.3,
              ),
              ((λ ne stored. rest.after.0.2 name (first ne stored)), rest.after.1),
            );
          })
