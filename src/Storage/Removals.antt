-- ===== src/Storage/Removals.antt =====
-- What is read after a removal of all values of a slot.
use ohno.Common.{◌≡◌, refl, subst, true, []}
use ohno.Common.Bytes.{Bytes, empty_ne}
use ohno.Common.Exec.{ok, Returns, Returns-bind, ◌>>=◌}
use ohno.Helper.Split.{join, split-nil}
use ohno.Etcd.Client.{
  EtcdClient, EtcdContract, Items, update, update_self, At, get-At, list-At, del-At,
}
use ohno.Storage.{
  init, routes_of, vtep_of, separator, del_netns, get_netns, del_addr, get_all_addrs, del_route,
  get_all_routes, del_vtep, get_vtep,
}
use ohno.Storage.Keys.{Slot, netns, addr, route, vtep, key_of, key_of-IsKey, IsNamed}

-- `init` answers with the client's test.
init_up :
    {S : Type 0} {c : EtcdClient S} (k : EtcdContract c) (s : S) → k.Up s → (init c s).0 ≡ ok true
unfolding init
init_up k s up = (k.test_up s up).result

module _ {S : Type 0} {c : EtcdClient S} (k : EtcdContract c) (node pod dev : Bytes)
    (named : IsNamed (addr node pod dev)) where
  listed_after :
      (slot : Slot) (f : Items) (s : S)
      → IsNamed slot
      → At k (update f (key_of slot) []) s
      → Returns (c.list (key_of slot) s) (true, []) (At k (update f (key_of slot) []))
  listed_after slot f s h at =
      subst (λ xs. Returns (c.list (key_of slot) s) (true, xs) (At k (update f (key_of slot) [])))
        (update_self f (key_of slot) [])
        (list-At k (key_of slot) (update f (key_of slot) []) s (key_of-IsKey slot h) at)

  read_after :
      (slot : Slot) (f : Items) (s : S)
      → IsNamed slot
      → At k (update f (key_of slot) []) s
      → Returns (c.get (key_of slot) s) (true, []) (At k (update f (key_of slot) []))
  unfolding join
  read_after slot f s h at =
      subst
        (λ xs.
          Returns (c.get (key_of slot) s) (true, join xs b',') (At k (update f (key_of slot) [])))
        (update_self f (key_of slot) [])
        (get-At k (key_of slot) (update f (key_of slot) []) s (key_of-IsKey slot h) at)

  deleted :
      (slot : Slot) (f : Items) (s : S)
      → IsNamed slot
      → At k f s
      → Returns (c.del (key_of slot) s) true (At k (update f (key_of slot) []))
  deleted slot f s h at = del-At k (key_of slot) f s (key_of-IsKey slot h) at

  pub del_addr-At :
      (f : Items) (s : S)
      → At k f s
      → Returns (del_addr c node pod dev s) true (At k (update f (key_of (addr node pod dev)) []))
  unfolding del_addr
  del_addr-At f s at =
      rw (empty_ne node named.0.0, empty_ne pod named.1.0, empty_ne dev named.2.0)
        (deleted (addr node pod dev) f s named at)

  pub del_route-At :
      (f : Items) (s : S)
      → At k f s
      → Returns (del_route c node pod dev s) true (At k (update f (key_of (route node pod dev)) []))
  unfolding del_route
  del_route-At f s at =
      rw (empty_ne node named.0.0, empty_ne pod named.1.0, empty_ne dev named.2.0)
        (deleted (route node pod dev) f s named at)

  pub get_vtep-none :
      (f : Items) (s : S)
      → f (key_of (vtep node)) ≡ []
      → At k f s
      → Returns (get_vtep c node s) ([], []) (At k f)
  unfolding get_vtep vtep_of join
  get_vtep-none f s none at = rw (empty_ne node named.0.0) (
      Returns-bind (c.get (key_of (vtep node))) _ s
        (subst (λ xs. Returns (c.get (key_of (vtep node)) s) (true, join xs b',') (At k f)) none
          (get-At k (key_of (vtep node)) f s (key_of-IsKey (vtep node) named.0) at))
        (λ t q. rw (split-nil separator) (record { result = refl; after = q })))

  pub del_vtep-At :
      (f : Items) (s : S)
      → At k f s
      → Returns (del_vtep c node s) true (At k (update f (key_of (vtep node)) []))
  unfolding del_vtep
  del_vtep-At f s at = rw (empty_ne node named.0.0) (deleted (vtep node) f s named.0 at)

  netns_gone :
      (f : Items) (s : S)
      → At k f s
      → Returns
          ((del_netns c node pod >>= λ _. get_netns c node pod) s)
          []
          (At k (update f (key_of (netns node pod)) []))
  unfolding del_netns get_netns
  netns_gone f s at =
      let named_slot : IsNamed (netns node pod) = (named.0, named.1) in
      rw (empty_ne node named.0.0, empty_ne pod named.1.0)
        (Returns-bind (c.del (key_of (netns node pod))) _ s
          (deleted (netns node pod) f s named_slot at)
          (λ t q.
            Returns-bind (c.get (key_of (netns node pod))) _ t
              (read_after (netns node pod) f t named_slot q)
              (λ u r. record { result = refl; after = r })))

  addrs_gone :
      (f : Items) (s : S)
      → At k f s
      → Returns
          ((del_addr c node pod dev >>= λ _. get_all_addrs c node pod dev) s)
          []
          (At k (update f (key_of (addr node pod dev)) []))
  unfolding del_addr get_all_addrs
  addrs_gone f s at =
      rw (empty_ne node named.0.0, empty_ne pod named.1.0, empty_ne dev named.2.0)
        (Returns-bind (c.del (key_of (addr node pod dev))) _ s
          (deleted (addr node pod dev) f s named at)
          (λ t q.
            Returns-bind (c.list (key_of (addr node pod dev))) _ t
              (listed_after (addr node pod dev) f t named q)
              (λ u r. record { result = refl; after = r })))

  routes_gone :
      (f : Items) (s : S)
      → At k f s
      → Returns
          ((del_route c node pod dev >>= λ _. get_all_routes c node pod dev) s)
          []
          (At k (update f (key_of (route node pod dev)) []))
  unfolding del_route get_all_routes routes_of
  routes_gone f s at =
      rw (empty_ne node named.0.0, empty_ne pod named.1.0, empty_ne dev named.2.0)
        (Returns-bind (c.del (key_of (route node pod dev))) _ s
          (deleted (route node pod dev) f s named at)
          (λ t q.
            Returns-bind (c.list (key_of (route node pod dev))) _ t
              (listed_after (route node pod dev) f t named q)
              (λ u r. record { result = refl; after = r })))

  vtep_gone :
      (f : Items) (s : S)
      → At k f s
      → Returns
          ((del_vtep c node >>= λ _. get_vtep c node) s)
          ([], [])
          (At k (update f (key_of (vtep node)) []))
  unfolding del_vtep get_vtep vtep_of
  vtep_gone f s at = rw (empty_ne node named.0.0) (
      Returns-bind (c.del (key_of (vtep node))) _ s (deleted (vtep node) f s named.0 at) (λ t q.
        Returns-bind (c.get (key_of (vtep node))) _ t (read_after (vtep node) f t named.0 q)
          (λ u r. rw (split-nil separator) (record { result = refl; after = r }))))

  -- While ETCD answers and the parts of the keys are plain words without a slash or a comma: after
  -- `delNetns`, `delAddr`, `delRoute` or `delVtep`, the getter of the same slot returns nothing,
  -- and only that slot is written.
  pub removals :
      (f : Items) (s : S)
      → At k f s
      → Returns
          ((del_netns c node pod >>= λ _. get_netns c node pod) s)
          []
          (At k (update f (key_of (netns node pod)) []))
        × Returns
            ((del_addr c node pod dev >>= λ _. get_all_addrs c node pod dev) s)
            []
            (At k (update f (key_of (addr node pod dev)) []))
        × Returns
            ((del_route c node pod dev >>= λ _. get_all_routes c node pod dev) s)
            []
            (At k (update f (key_of (route node pod dev)) []))
        × Returns
            ((del_vtep c node >>= λ _. get_vtep c node) s)
            ([], [])
            (At k (update f (key_of (vtep node)) []))
  removals f s at = (netns_gone f s at, addrs_gone f s at, routes_gone f s at, vtep_gone f s at)
