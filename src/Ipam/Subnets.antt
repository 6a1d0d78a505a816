-- ===== src/Ipam/Subnets.antt =====
-- `getSubnet`, `allocateSubnet` and `releaseSubnet` while ETCD answers.
use ohno.Common.{
  ◌≡◌, ◌≢◌, refl, sym, ◌∙◌, subst, fun_ext, Bool, true, false, not, List, [], ◌∷◌, ◌++◌, arith,
}
use ohno.Common.Bytes.{Bytes, empty, empty_ne, contains, eqb_iff}
use ohno.Common.Exec.{Returns, Returns-bind, pure, ◌>>=◌}
use ohno.Helper.Split.{join}
use ohno.Etcd.Words.{IsName, IsItem}
use ohno.Etcd.Client.{
  EtcdClient, EtcdContract, Items, update, update_self, update_ne, without, At, get-At, put-At,
  append-At, del-At, del_value-At,
}
use ohno.Etcd.Values.{without-concat}
use ohno.Ipam.{
  Center, NodeInfo, etcd_key_subnet, subnet_key, get_subnet, allocate_subnet, release_subnet,
}
use ohno.Ipam.Keys.{etcd_key_subnet-IsKey, subnet_key-IsKey, subnets-ne-subnet}

-- What `getSubnet` makes of the list under the node's key.
abbrev pub owned : List Bytes → Bool × Bytes
owned xs = (not (empty (join xs b',')), join xs b',')

-- The lists when a subnet has been given to a node that had none.
abbrev pub registered : Items → Bytes → Bytes → Items
registered f node cidr =
    update (update f etcd_key_subnet (f etcd_key_subnet ++ cidr ∷ [])) (subnet_key node) (cidr ∷ [])

-- Two keys, written and then written back.
rewritten :
    (f : Items) (a b c j : Bytes)
    → f b ≡ []
    → update (update (update (update f a (f a ++ c ∷ [])) b (c ∷ [])) b []) a (f a) j ≡ f j
unfolding update
rewritten f a b c j own = ground (arith, eqb_iff a j, eqb_iff b j)

restored :
    (f : Items) (a b c : Bytes)
    → a ≢ b
    → f b ≡ []
    → contains (f a) c ≡ false
    → update
        (update (update (update f a (f a ++ c ∷ [])) b (c ∷ [])) b [])
        a
        (without c (update (update f a (f a ++ c ∷ [])) b (c ∷ []) a))
      ≡ f
restored f a b c ne own fresh = fun_ext λ j.
    let g = update f a (f a ++ c ∷ []) in
    let kept : update g b (c ∷ []) a ≡ f a ++ c ∷ [] =
      update_ne g b a (c ∷ []) (λ e. ne (sym e)) ∙ update_self f a _ in
    rw (kept, without-concat c (f a) fresh) (rewritten f a b c j own)

module _ {S : Type 0} {c : EtcdClient S} (k : EtcdContract c) (node : Bytes)
    (named : IsName node) where
  pub get_subnet-At :
      (f : Items) (s : S)
      → At k f s
      → Returns (get_subnet c node s) (owned (f (subnet_key node))) (At k f)
  unfolding get_subnet
  get_subnet-At f s h = rw (empty_ne node named.0) (
      Returns-bind (c.get (subnet_key node)) _ s
        (get-At k (subnet_key node) f s (subnet_key-IsKey node named) h)
        (λ t q. record { result = refl; after = q }))

  pub get_owned :
      (cidr : Bytes) (f : Items) (s : S)
      → IsItem cidr
      → f (subnet_key node) ≡ cidr ∷ []
      → At k f s
      → Returns (get_subnet c node s) (true, cidr) (At k f)
  unfolding join
  get_owned cidr f s item own h =
      subst (λ r. Returns (get_subnet c node s) r (At k f)) (rw (own, empty_ne cidr item.0) refl)
        (get_subnet-At f s h)

  pub get_nothing :
      (f : Items) (s : S)
      → f (subnet_key node) ≡ []
      → At k f s
      → Returns (get_subnet c node s) (false, []) (At k f)
  unfolding join empty
  get_nothing f s own h =
      subst (λ r. Returns (get_subnet c node s) r (At k f)) (rw own refl) (get_subnet-At f s h)

  module _ (center : Center S) (info : NodeInfo) (item : IsItem info.pod_cidr)
      (known : (s : S) → Returns (center.get_kubernetes_data node s) info (λ t. t ≡ s)) where
    known-At :
        (f : Items) (s : S) → At k f s → Returns (center.get_kubernetes_data node s) info (At k f)
    known-At f s h = record {
      result = (known s).result;
      after = subst (At k f) (sym (known s).after) h;
    }

    -- A node that has a subnet gets that one again, and nothing is written.
    pub allocate_subnet-owned :
        (cidr : Bytes) (f : Items) (s : S)
        → IsItem cidr
        → f (subnet_key node) ≡ cidr ∷ []
        → At k f s
        → Returns (allocate_subnet c node center s) (true, cidr) (At k f)
    unfolding allocate_subnet
    allocate_subnet-owned cidr f s word own h =
        Returns-bind (get_subnet c node) _ s (get_owned cidr f s word own h)
          (λ t q. record { result = refl; after = q })

    pub allocate_subnet-fresh :
        (f : Items) (s : S)
        → f (subnet_key node) ≡ []
        → At k f s
        → Returns
            (allocate_subnet c node center s)
            (true, info.pod_cidr)
            (At k (registered f node info.pod_cidr))
    unfolding allocate_subnet
    allocate_subnet-fresh f s own h =
        let cidr = info.pod_cidr in
        Returns-bind (get_subnet c node) _ s (get_nothing f s own h) (λ t q.
          Returns-bind (center.get_kubernetes_data node) _ t (known-At f t q) (λ u r.
            Returns-bind (c.append etcd_key_subnet cidr) _ u
              (append-At k etcd_key_subnet cidr f u etcd_key_subnet-IsKey item r)
              (λ v w.
                Returns-bind (c.put (subnet_key node) cidr) _ v
                  (put-At k (subnet_key node) cidr _ v (subnet_key-IsKey node named) item w)
                  (λ x y. record { result = refl; after = y }))))

    registered_key :
        (f : Items) (cidr : Bytes) → registered f node cidr (subnet_key node) ≡ cidr ∷ []
    registered_key f cidr = update_self _ (subnet_key node) (cidr ∷ [])

    -- While ETCD answers, the node's name is a plain word and the cluster answers with the node's
    -- pod CIDR, a plain text without a comma: for a node without a subnet, `allocateSubnet` called
    -- twice gives the pod CIDR both times and registers it once.
    pub allocate_subnet-twice :
        (f : Items) (s : S)
        → f (subnet_key node) ≡ []
        → At k f s
        → Returns {A = (Bool × Bytes) × (Bool × Bytes)}
            ((do
              first ← allocate_subnet c node center
              second ← allocate_subnet c node center
              pure (first, second))
              s)
            ((true, info.pod_cidr), (true, info.pod_cidr))
            (At k (registered f node info.pod_cidr))
    allocate_subnet-twice f s own h =
        let cidr = info.pod_cidr in
        Returns-bind (allocate_subnet c node center) _ s (allocate_subnet-fresh f s own h) (λ t q.
          Returns-bind (allocate_subnet c node center) _ t
            (allocate_subnet-owned cidr _ t item (registered_key f cidr) q)
            (λ u r. record { result = refl; after = r }))

  pub release_subnet-At :
      (cidr : Bytes) (f : Items) (s : S)
      → IsItem cidr
      → At k f s
      → Returns (release_subnet c node cidr s) true (
          At k (
            update
              (update f (subnet_key node) [])
              etcd_key_subnet
              (without cidr (f etcd_key_subnet))))
  unfolding release_subnet
  release_subnet-At cidr f s item h =
      let same =
        update_ne f (subnet_key node) etcd_key_subnet [] (λ e. subnets-ne-subnet node (sym e)) in
      rw (empty_ne node named.0) (
        Returns-bind (c.del (subnet_key node)) _ s
          (del-At k (subnet_key node) f s (subnet_key-IsKey node named) h)
          (λ t q.
            subst
              (λ xs.
                Returns (c.del_value etcd_key_subnet cidr t) true
                  (At k (update (update f (subnet_key node) []) etcd_key_subnet (without cidr xs))))
              same (del_value-At k etcd_key_subnet cidr _ t etcd_key_subnet-IsKey item q)))

  module _ (center : Center S) (info : NodeInfo) (item : IsItem info.pod_cidr)
      (known : (s : S) → Returns (center.get_kubernetes_data node s) info (λ t. t ≡ s)) where
    -- While ETCD answers, the node's name is a plain word and the cluster answers with the node's
    -- pod CIDR, a plain text without a comma: for a node without a subnet whose pod CIDR is not
    -- registered, `releaseSubnet` of what `allocateSubnet` gave restores every list.
    pub release_subnet-allocate_subnet :
        (f : Items) (s : S)
        → f (subnet_key node) ≡ []
        → contains (f etcd_key_subnet) info.pod_cidr ≡ false
        → At k f s
        → Returns
            ((allocate_subnet c node center >>= λ r. release_subnet c node r.1) s)
            true
            (At k f)
    release_subnet-allocate_subnet f s own fresh h =
        let cidr = info.pod_cidr in
        Returns-bind (allocate_subnet c node center) _ s
          (allocate_subnet-fresh center info item known f s own h)
          (λ t q.
            subst (λ g. Returns (release_subnet c node cidr t) true (At k g))
              (restored f etcd_key_subnet (subnet_key node) cidr (subnets-ne-subnet node) own fresh)
              (release_subnet-At cidr _ t item q))
