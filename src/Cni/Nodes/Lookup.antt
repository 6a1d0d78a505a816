-- ===== src/Cni/Nodes/Lookup.antt =====
-- src/cni/cni.cc: the node and its pods are found where the cluster has them.
use ohno.Common.{
  ◌≡◌, ◌≢◌, refl, sym, ap, ◌∙◌, subst, Bool, true, false, [], ◌∷◌, some, none, Option,
}
use ohno.Common.Bytes.{Bytes}
use ohno.Common.Exec.{Exec, Outcome, ok, fault, cni_error, Returns, continue}
use ohno.Registry.{find, get_node, get_netns, add_netns}
use ohno.Registry.Lookup.{get_node-find, get_netns-find, add_netns-new}
use ohno.Cni.{Pod, KubeNode, Parts, World, on_node, replace}
use ohno.Cni.Restore.{new_pod}
use ohno.Cni.Nodes.{get_kubernetes_node, get_kubernetes_pod, found_pod}
use ohno.Cni.Shared.{find-replace_self, find-replace_ne, within-find}
use ohno.Cni.Holds.{given-step, cluster-step}

module _ {E K : Type 0} (v : Parts E K) where
  -- A node that an empty cluster does not have.
  pub get_kubernetes_node-unknown :
      (w : World E K)
      → w.cni.node_name ≢ []
      → w.cni.node_underlay_dev ≢ []
      → w.cni.node_underlay_addr ≢ []
      → w.cni.cluster ≡ []
      → Returns
          (get_kubernetes_node v false w)
          false
          (λ u. (u.etcd ≡ w.etcd) × (u.cni.cluster ≡ []))
  unfolding get_kubernetes_node find
  get_kubernetes_node-unknown w name dev addr nothing = given-step w.cni.node_name _ w name (
      given-step w.cni.node_underlay_dev _ w dev (
        given-step w.cni.node_underlay_addr _ w addr (
          cluster-step (get_node w.cni.node_name) _ w
            (get_node-find w.cni.node_name w.cni.cluster name
              ∙ ap (λ m. (ok (find w.cni.node_name m), m)) nothing)
            (record { result = refl; after = (refl, refl) }))))

-- The node with one more pod.
abbrev pub with_pod : KubeNode → Bytes → KubeNode
with_pod n pod_name = record n { netns = (pod_name, new_pod pod_name) ∷ n.netns }

module _ {E K : Type 0} where
  -- The cluster with another node in the place of the one that has the name.
  abbrev put_node : Bytes → KubeNode → World E K → World E K
  put_node node n w = record w { cni = record w.cni { cluster = replace node n w.cni.cluster } }

  -- An operation of a node that is found.
  on_node-find :
      {A : Type 0} (node : Bytes) (m : Exec KubeNode A) (w : World E K) (n : KubeNode)
      → find node w.cni.cluster ≡ some n
      → on_node node m w ≡ ((m n).0, put_node node (m n).1 w)
  on_node-find node m w n found =
      ap (λ p. (p.0, record w { cni = record w.cni { cluster = p.1 } }))
        (within-find node m w.cni.cluster found)

  looked :
      (node pod : Bytes) (create : Bool) (w : World E K) (n : KubeNode)
      → find node w.cni.cluster ≡ some n
      → pod ≢ []
      → get_kubernetes_pod node pod create w
        ≡ found_pod node pod create (find pod n.netns) (put_node node n w)
  unfolding get_kubernetes_pod
  looked node pod create w n found full =
      ap (λ r. continue r.0 (found_pod node pod create) r.1)
        (on_node-find node (get_netns pod) w n found
          ∙ ap (λ r. (r.0, put_node node r.1 w)) (get_netns-find pod n full))

  abbrev Looked :
      Bytes
      → Bytes
      → Bytes
      → Bool
      → World E K
      → KubeNode
      → Option Pod
      → Outcome (Unit {0}) × World E K
      → Type 0
  Looked node other pod create w n o r =
      (find other r.1.cni.cluster ≡ find other w.cni.cluster)
      × ((p : Pod) → o ≡ some p → (r.0 ≡ ok tt) × (find node r.1.cni.cluster ≡ some n))
      × (o ≡ none
          → create ≡ true
          → (r.0 ≡ ok tt) × (find node r.1.cni.cluster ≡ some (with_pod n pod)))
      × (o ≡ none
          → create ≡ false
          → (r.0 ≡ fault (cni_error 7)) × (find node r.1.cni.cluster ≡ some n))

  each_case :
      (node other pod : Bytes) (create : Bool) (w : World E K) (n : KubeNode) (o : Option Pod)
      → find node w.cni.cluster ≡ some n
      → pod ≢ []
      → node ≢ other
      → find pod n.netns ≡ o
      → Looked node other pod create w n o (found_pod node pod create o (put_node node n w))
  unfolding found_pod
  each_case node other pod create w n (some p) found full ne e =
      let same = find-replace_self node n n w.cni.cluster found in
      (
        find-replace_ne node other n w.cni.cluster ne,
        (λ q h. (refl, same)),
        (λ h c. cc),
        (λ h c. cc),
      )
  each_case node other pod false w n none found full ne e =
      let same = find-replace_self node n n w.cni.cluster found in
      (
        find-replace_ne node other n w.cni.cluster ne,
        (λ q h. cc),
        (λ h c. cc),
        (λ h c. (refl, same)),
      )
  each_case node other pod true w n none found full ne e =
      let same = find-replace_self node n n w.cni.cluster found in
      let cl = replace node n w.cni.cluster in
      subst (Looked node other pod true w n none)
        (sym (
          on_node-find node (add_netns pod (new_pod pod)) (put_node node n w) n same
          ∙ ap (λ r. (r.0, put_node node r.1 (put_node node n w)))
              (add_netns-new pod (new_pod pod) n full e)))
        (
          find-replace_ne node other (with_pod n pod) cl ne
              ∙ find-replace_ne node other n w.cni.cluster ne,
          (λ q h. cc),
          (λ h c. (refl, find-replace_self node n (with_pod n pod) cl same)),
          (λ h c. cc),
        )

  -- For a node of the cluster and a pod with a name: if the node has the pod, the call returns and the
  -- node is as it was; if not, the call that may create it returns, and the node then has one more
  -- pod, of that name and without an interface; the call that may not throws error 7, and the node is
  -- as it was. No other node is changed.
  pub get_kubernetes_pod_lem :
      (node other pod : Bytes) (create : Bool) (w : World E K) (n : KubeNode)
      → find node w.cni.cluster ≡ some n
      → pod ≢ []
      → node ≢ other
      → (let r = get_kubernetes_pod node pod create w in
          (find other r.1.cni.cluster ≡ find other w.cni.cluster)
          × ((p : Pod)
              → find pod n.netns ≡ some p
              → (r.0 ≡ ok tt) × (find node r.1.cni.cluster ≡ some n))
          × (find pod n.netns ≡ none
              → create ≡ true
              → (r.0 ≡ ok tt) × (find node r.1.cni.cluster ≡ some (with_pod n pod)))
          × (find pod n.netns ≡ none
              → create ≡ false
              → (r.0 ≡ fault (cni_error 7)) × (find node r.1.cni.cluster ≡ some n)))
  get_kubernetes_pod_lem node other pod create w n found full ne =
      subst (Looked node other pod create w n (find pod n.netns))
        (sym (looked node pod create w n found full))
        (each_case node other pod create w n (find pod n.netns) found full ne refl)
