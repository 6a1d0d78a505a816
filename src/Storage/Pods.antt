-- ===== src/Storage/Pods.antt =====
-- Pods of a node: one under its network namespace, all of them in one list.
use ohno.Common.{◌≡◌, ◌≢◌, refl, sym, ap, ◌∙◌, subst, true, false, [], ◌∷◌, ◌++◌, fun_ext, arith}
use ohno.Common.Bytes.{Bytes, empty_ne, contains, eqb_iff}
use ohno.Common.Exec.{ok, Returns, Returns-bind, ◌>>=◌}
use ohno.Helper.Split.{join}
use ohno.Etcd.Words.{IsName, IsName-IsItem}
use ohno.Etcd.Client.{
  EtcdClient, EtcdContract, Items, update, update_self, update_ne, without, At, get-At, list-At,
  append-At, put-At, del-At, del_value-At,
}
use ohno.Etcd.Values.{without-concat}
use ohno.Net.Nic.{simple_netns}
use ohno.Storage.{add_pod, del_pod, get_pod, get_all_pods}
use ohno.Storage.Keys.{single_pod, all_pods, key_of, key_of-IsKey, key_of-injective}

single-ne-all :
    (n x m : Bytes) → IsName n → IsName x → IsName m → key_of (single_pod n x) ≢ key_of (all_pods m)
single-ne-all n x m hn hx hm e = cc (key_of-injective (single_pod n x) (all_pods m) (hn, hx) hm e)

-- The lists when a pod has been added.
abbrev pub with_pod : Items → Bytes → Bytes → Bytes → Items
with_pod f node name pod =
    let own = update f (key_of (single_pod node name)) (pod ∷ []) in
    update own (key_of (all_pods node)) (own (key_of (all_pods node)) ++ pod ∷ [])

-- The two keys, written and then written back.
written_back :
    (f : Items) (a b p j : Bytes)
    → f b ≡ []
    → update (update (update (update f b (p ∷ [])) a (f a ++ p ∷ [])) b []) a (f a) j ≡ f j
unfolding update
written_back f a b p j own = ground (arith, eqb_iff a j, eqb_iff b j)

module _ {S : Type 0} {c : EtcdClient S} (k : EtcdContract c) (node netns_name name pod : Bytes)
    (hn : IsName node) (hx : IsName name) (hp : IsName pod) (full : netns_name ≢ [])
    (simple : simple_netns netns_name ≡ ok name) where
  pub add_pod-At :
      (f : Items) (s : S)
      → At k f s
      → Returns (add_pod c node netns_name pod s) true (At k (with_pod f node name pod))
  unfolding add_pod
  add_pod-At f s at =
      rw (empty_ne node hn.0, empty_ne netns_name full, empty_ne pod hp.0, simple)
        (Returns-bind (c.put (key_of (single_pod node name)) pod) _ s
          (put-At k (key_of (single_pod node name)) pod f s
            (key_of-IsKey (single_pod node name) (hn, hx)) (IsName-IsItem pod hp) at)
          (λ t q.
            append-At k (key_of (all_pods node)) pod _ t (key_of-IsKey (all_pods node) hn)
              (IsName-IsItem pod hp) q))

  pub get_pod-join :
      (f : Items) (s : S)
      → At k f s
      → Returns
          (get_pod c node netns_name s)
          (join (f (key_of (single_pod node name))) b',')
          (At k f)
  unfolding get_pod
  get_pod-join f s at =
      rw (empty_ne node hn.0, empty_ne netns_name full, simple)
        (Returns-bind (c.get (key_of (single_pod node name))) _ s
          (get-At k (key_of (single_pod node name)) f s
            (key_of-IsKey (single_pod node name) (hn, hx)) at)
          (λ t q. record { result = refl; after = q }))

  get_pod-At :
      (f : Items) (s : S)
      → f (key_of (single_pod node name)) ≡ pod ∷ []
      → At k f s
      → Returns (get_pod c node netns_name s) pod (At k f)
  unfolding get_pod join
  get_pod-At f s kept at =
      rw (empty_ne node hn.0, empty_ne netns_name full, simple)
        (Returns-bind (c.get (key_of (single_pod node name))) _ s
          (get-At k (key_of (single_pod node name)) f s
            (key_of-IsKey (single_pod node name) (hn, hx)) at)
          (λ t q. rw kept (record { result = refl; after = q })))

  get_all_pods-At :
      (f : Items) (s : S)
      → At k f s
      → Returns (get_all_pods c node s) (f (key_of (all_pods node))) (At k f)
  unfolding get_all_pods
  get_all_pods-At f s at = rw (empty_ne node hn.0) (
      Returns-bind (c.list (key_of (all_pods node))) _ s
        (list-At k (key_of (all_pods node)) f s (key_of-IsKey (all_pods node) hn) at)
        (λ t q. record { result = refl; after = q }))

  del_pod-At :
      (f : Items) (s : S)
      → f (key_of (single_pod node name)) ≡ pod ∷ []
      → At k f s
      → Returns (del_pod c node netns_name s) true (
          At k (
            update
              (update f (key_of (single_pod node name)) [])
              (key_of (all_pods node))
              (without pod (f (key_of (all_pods node))))))
  unfolding del_pod join
  del_pod-At f s kept at =
      let apart =
        update_ne f (key_of (single_pod node name)) (key_of (all_pods node)) []
          (single-ne-all node name node hn hx hn) in
      rw (empty_ne node hn.0, empty_ne netns_name full, simple)
        (Returns-bind (c.get (key_of (single_pod node name))) _ s
          (get-At k (key_of (single_pod node name)) f s
            (key_of-IsKey (single_pod node name) (hn, hx)) at)
          (λ t q. rw kept (
            Returns-bind (c.del (key_of (single_pod node name))) _ t
              (del-At k (key_of (single_pod node name)) f t
                (key_of-IsKey (single_pod node name) (hn, hx)) q)
              (λ u r.
                subst
                  (λ xs. Returns (c.del_value (key_of (all_pods node)) pod u) true (
                    At k (
                      update (update f (key_of (single_pod node name)) []) (key_of (all_pods node))
                        (without pod xs))))
                  apart
                  (del_value-At k (key_of (all_pods node)) pod _ u (key_of-IsKey (all_pods node) hn)
                    (IsName-IsItem pod hp) r)))))

  with_pod_own : (f : Items) → with_pod f node name pod (key_of (single_pod node name)) ≡ pod ∷ []
  with_pod_own f =
      update_ne _ (key_of (all_pods node)) (key_of (single_pod node name)) _
        (λ e. single-ne-all node name node hn hx hn (sym e))
      ∙ update_self f (key_of (single_pod node name)) (pod ∷ [])

  own_kept :
      (f : Items)
      → update f (key_of (single_pod node name)) (pod ∷ []) (key_of (all_pods node))
        ≡ f (key_of (all_pods node))
  own_kept f =
      update_ne f (key_of (single_pod node name)) (key_of (all_pods node)) (pod ∷ [])
        (single-ne-all node name node hn hx hn)

  with_pod_all :
      (f : Items)
      → with_pod f node name pod (key_of (all_pods node)) ≡ f (key_of (all_pods node)) ++ pod ∷ []
  with_pod_all f = update_self _ (key_of (all_pods node)) _ ∙ ap (λ xs. xs ++ pod ∷ []) (own_kept f)

  -- While ETCD answers and the parts of the keys are plain words without a slash or a comma: after
  -- `addPod`, `getPod` gives the pod of the namespace and `getAllPods` the pods of the node with
  -- the new one at the end.
  get_pod-add_pod :
      (f : Items) (s : S)
      → At k f s
      → (let added = add_pod c node netns_name pod s in
          Returns added true (At k (with_pod f node name pod))
          × Returns (get_pod c node netns_name added.1) pod (At k (with_pod f node name pod))
          × Returns
              (get_all_pods c node added.1)
              (f (key_of (all_pods node)) ++ pod ∷ [])
              (At k (with_pod f node name pod)))
  get_pod-add_pod f s at =
      let added = add_pod-At f s at in
      let g = with_pod f node name pod in
      (
        added,
        get_pod-At g _ (with_pod_own f) added.after,
        subst (λ xs. Returns (get_all_pods c node (add_pod c node netns_name pod s).1) xs (At k g))
            (with_pod_all f) (get_all_pods-At g _ added.after),
      )

  taken_out :
      (f : Items)
      → f (key_of (single_pod node name)) ≡ []
      → contains (f (key_of (all_pods node))) pod ≡ false
      → update
          (update (with_pod f node name pod) (key_of (single_pod node name)) [])
          (key_of (all_pods node))
          (without pod (with_pod f node name pod (key_of (all_pods node))))
        ≡ f
  taken_out f own fresh =
      let a = key_of (all_pods node) in
      let b = key_of (single_pod node name) in
      rw (with_pod_all f, without-concat pod (f a) fresh, own_kept f)
        (fun_ext λ j. written_back f a b pod j own)

  -- While ETCD answers and the parts of the keys are plain words without a slash or a comma: for a
  -- namespace without a pod, and a pod that is not on the node's list, `delPod` after `addPod`
  -- restores every list.
  pub del_pod-add_pod :
      (f : Items) (s : S)
      → f (key_of (single_pod node name)) ≡ []
      → contains (f (key_of (all_pods node))) pod ≡ false
      → At k f s
      → Returns ((add_pod c node netns_name pod >>= λ _. del_pod c node netns_name) s) true (At k f)
  del_pod-add_pod f s own fresh at =
      Returns-bind (add_pod c node netns_name pod) _ s (add_pod-At f s at) (λ t q.
        subst (λ g. Returns (del_pod c node netns_name t) true (At k g)) (taken_out f own fresh)
          (del_pod-At _ t (with_pod_own f) q))
