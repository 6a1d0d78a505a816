-- ===== src/Storage/Devices.antt =====
-- Network interfaces, addresses and namespaces of a pod.
use ohno.Common.{ℕ, ◌^◌, ◌≤◌, ◌<◌, ◌≡◌, refl, subst, true, false, [], ◌∷◌, ◌++◌, arith}
use ohno.Common.Bytes.{Bytes, empty_ne, contains}
use ohno.Common.Exec.{ok, Returns, Returns-bind, ◌>>=◌}
use ohno.Helper.Split.{join}
use ohno.Etcd.Words.{IsItem, IsName-IsItem}
use ohno.Etcd.Client.{
  EtcdClient, EtcdContract, Items, update, update_self, without, At, get-At, list-At, append-At,
  put-At, del_value-At,
}
use ohno.Etcd.Values.{taken_back}
use ohno.Ipam.Allocate.{cidr_text-IsItem}
use ohno.Net.Boost.{Boost, BoostLaws, cidr_text}
use ohno.Net.Addr.{Addr, new, get_addr_cidr}
use ohno.Net.Addr.Parsed.{get_addr_cidr-new}
use ohno.Storage.{add_nic, del_nic, get_all_nic, add_addr, get_all_addrs, add_netns, get_netns}
use ohno.Storage.Keys.{nic, addr, netns, key_of, key_of-IsKey, IsNamed}

module _ {S : Type 0} {c : EtcdClient S} (k : EtcdContract c) (node pod dev : Bytes)
    (named : IsNamed (addr node pod dev)) where
  pub add_nic-At :
      (f : Items) (s : S)
      → At k f s
      → Returns
          (add_nic c node pod dev s)
          true
          (At k (update f (key_of (nic node pod)) (f (key_of (nic node pod)) ++ dev ∷ [])))
  unfolding add_nic
  add_nic-At f s at =
      rw (empty_ne node named.0.0, empty_ne pod named.1.0, empty_ne dev named.2.0)
        (append-At k (key_of (nic node pod)) dev f s
          (key_of-IsKey (nic node pod) (named.0, named.1)) (IsName-IsItem dev named.2) at)

  pub get_all_nic-At :
      (f : Items) (s : S)
      → At k f s
      → Returns (get_all_nic c node pod s) (f (key_of (nic node pod))) (At k f)
  unfolding get_all_nic
  get_all_nic-At f s at =
      rw (empty_ne node named.0.0, empty_ne pod named.1.0)
        (Returns-bind (c.list (key_of (nic node pod))) _ s
          (list-At k (key_of (nic node pod)) f s (key_of-IsKey (nic node pod) (named.0, named.1))
            at)
          (λ t q. record { result = refl; after = q }))

  pub del_nic-At :
      (f : Items) (s : S)
      → At k f s
      → Returns
          (del_nic c node pod dev s)
          true
          (At k (update f (key_of (nic node pod)) (without dev (f (key_of (nic node pod))))))
  unfolding del_nic
  del_nic-At f s at =
      rw (empty_ne node named.0.0, empty_ne pod named.1.0, empty_ne dev named.2.0)
        (del_value-At k (key_of (nic node pod)) dev f s
          (key_of-IsKey (nic node pod) (named.0, named.1)) (IsName-IsItem dev named.2) at)

  -- While ETCD answers and the parts of the keys are plain words without a slash or a comma: for a
  -- device that the pod does not have, `getAllNic` after `addNic` gives the pod's devices with the
  -- new one at the end, and `delNic` after `addNic` restores every list.
  pub add_nic-rounds :
      (f : Items) (s : S)
      → contains (f (key_of (nic node pod))) dev ≡ false
      → At k f s
      → (let added = (add_nic c node pod dev s).1 in
          Returns
            (get_all_nic c node pod added)
            (f (key_of (nic node pod)) ++ dev ∷ [])
            (At k (update f (key_of (nic node pod)) (f (key_of (nic node pod)) ++ dev ∷ [])))
          × Returns (del_nic c node pod dev added) true (At k f))
  add_nic-rounds f s fresh at =
      let a = key_of (nic node pod) in
      let g = update f a (f a ++ dev ∷ []) in
      let added = (add_nic-At f s at).after in
      (
        subst (λ xs. Returns (get_all_nic c node pod (add_nic c node pod dev s).1) xs (At k g))
            (update_self f a _) (get_all_nic-At g _ added),
        subst (λ h. Returns (del_nic c node pod dev (add_nic c node pod dev s).1) true (At k h))
            (taken_back f a dev fresh) (del_nic-At g _ added),
      )

  pub add_addr-At :
      (b : Boost) (x : Addr) (text : Bytes) (f : Items) (s : S)
      → get_addr_cidr b x ≡ ok text
      → IsItem text
      → At k f s
      → Returns (add_addr c b node pod dev x s) true (
          At k
            (update f (key_of (addr node pod dev)) (f (key_of (addr node pod dev)) ++ text ∷ [])))
  unfolding add_addr
  add_addr-At b x text f s spelled item at =
      rw (empty_ne node named.0.0, empty_ne pod named.1.0, empty_ne dev named.2.0, spelled)
        (append-At k (key_of (addr node pod dev)) text f s (key_of-IsKey (addr node pod dev) named)
          item at)

  pub get_all_addrs-At :
      (f : Items) (s : S)
      → At k f s
      → Returns (get_all_addrs c node pod dev s) (f (key_of (addr node pod dev))) (At k f)
  unfolding get_all_addrs
  get_all_addrs-At f s at =
      rw (empty_ne node named.0.0, empty_ne pod named.1.0, empty_ne dev named.2.0)
        (Returns-bind (c.list (key_of (addr node pod dev))) _ s
          (list-At k (key_of (addr node pod dev)) f s (key_of-IsKey (addr node pod dev) named) at)
          (λ t q. record { result = refl; after = q }))

  -- While ETCD answers and the parts of the keys are plain words without a slash or a comma: for a
  -- 32-bit address and a prefix of at most 32, `getAllAddrs` after `addAddr` of the `Addr` made
  -- from the CIDR text gives the stored texts and then that CIDR text.
  pub get_all_addrs-add_addr :
      (b : Boost) (laws : BoostLaws b) (a p : ℕ) (f : Items) (s : S)
      → a < 2 ^ 32
      → p ≤ 32
      → At k f s
      → Returns
          ((add_addr c b node pod dev (new b (cidr_text a p)) >>= λ _. get_all_addrs c node pod dev)
            s)
          (f (key_of (addr node pod dev)) ++ cidr_text a p ∷ [])
          (At k (
            update f
              (key_of (addr node pod dev))
              (f (key_of (addr node pod dev)) ++ cidr_text a p ∷ [])))
  get_all_addrs-add_addr b laws a p f s ha hp at =
      let slot = key_of (addr node pod dev) in
      let g = update f slot (f slot ++ cidr_text a p ∷ []) in
      Returns-bind (add_addr c b node pod dev (new b (cidr_text a p))) _ s
        (add_addr-At b (new b (cidr_text a p)) (cidr_text a p) f s
          (get_addr_cidr-new b laws a p ha (omega arith)).0 (cidr_text-IsItem a p) at)
        (λ t q.
          subst (λ xs. Returns (get_all_addrs c node pod dev t) xs (At k g)) (update_self f slot _)
            (get_all_addrs-At g t q))

  pub add_netns-At :
      (path : Bytes) (f : Items) (s : S)
      → IsItem path
      → At k f s
      → Returns
          (add_netns c node pod path s)
          true
          (At k (update f (key_of (netns node pod)) (path ∷ [])))
  unfolding add_netns
  add_netns-At path f s item at =
      rw (empty_ne node named.0.0, empty_ne pod named.1.0, empty_ne path item.0)
        (put-At k (key_of (netns node pod)) path f s
          (key_of-IsKey (netns node pod) (named.0, named.1)) item at)

  pub get_netns-At :
      (path : Bytes) (f : Items) (s : S)
      → f (key_of (netns node pod)) ≡ path ∷ []
      → At k f s
      → Returns (get_netns c node pod s) path (At k f)
  unfolding get_netns join
  get_netns-At path f s kept at =
      rw (empty_ne node named.0.0, empty_ne pod named.1.0)
        (Returns-bind (c.get (key_of (netns node pod))) _ s
          (get-At k (key_of (netns node pod)) f s (key_of-IsKey (netns node pod) (named.0, named.1))
            at)
          (λ t q. rw kept (record { result = refl; after = q })))

  -- While ETCD answers and the parts of the keys are plain words without a slash or a comma:
  -- `getNetns` after `addNetns` of a plain text without a comma gives that text, whatever was
  -- stored before, and only that slot is written.
  get_netns-add_netns :
      (path : Bytes) (f : Items) (s : S)
      → IsItem path
      → At k f s
      → Returns
          ((add_netns c node pod path >>= λ _. get_netns c node pod) s)
          path
          (At k (update f (key_of (netns node pod)) (path ∷ [])))
  get_netns-add_netns path f s item at =
      Returns-bind (add_netns c node pod path) _ s (add_netns-At path f s item at)
        (λ t q. get_netns-At path _ t (update_self f (key_of (netns node pod)) _) q)
