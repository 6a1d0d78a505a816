-- ===== src/Cni/Interfaces/Claim.antt =====
-- src/cni/cni.cc: a network namespace belongs to one container.
use ohno.Common.{
  List, ◌≡◌, ◌≢◌, refl, ap, ◌∙◌, Bool, true, false, ◌||◌, [], ◌∷◌, ◌⊎◌, inl, inr, arith,
}
use ohno.Common.Bytes.{Bytes, empty, empty_ne, eqb, eqb_refl, eqb_ne}
use ohno.Common.Exec.{cni_error, ok, Returns, Returns-bind, Throws, Throws-bind, Throws-first}
use ohno.Helper.Split.{join}
use ohno.Etcd.Words.{IsName, IsItem}
use ohno.Etcd.Client.{EtcdContract, Items, update, At}
use ohno.Net.Nic.{simple_netns}
use ohno.Storage.{get_pod, add_pod, add_netns}
use ohno.Storage.Keys.{key_of, single_pod, netns}
use ohno.Storage.Pods.{with_pod, add_pod-At, get_pod-join}
use ohno.Storage.Devices.{add_netns-At}
use ohno.Cni.{Parts, World, on_etcd, require}
use ohno.Cni.Interfaces.{claim_netns}
use ohno.Cni.Holds.{
  Holds, on_etcd-Holds, etcd_or_throw-Holds, etcd-bind, etcd_or_throw-bind, given-step,
}

require-Throws :
    {E K : Type 0} (t : Bool) (w : World E K) {Q : World E K → Type 0}
    → t ≡ false
    → Q w
    → Throws (require 7 t w) (cni_error 7) Q
require-Throws true w e q = cc
require-Throws false w e q = record { thrown = refl; after = q }

require-Returns :
    {E K : Type 0} (t : Bool) (w : World E K) {Q : World E K → Type 0}
    → t ≡ true
    → Q w
    → Returns (require 7 t w) tt Q
require-Returns true w e q = record { result = refl; after = q }
require-Returns false w e q = cc

-- The test of the owner that `getPod` gives.
abbrev is_mine : Bytes → List Bytes → Bool
is_mine pod owners = let cid = join owners b',' in empty cid || eqb cid pod

not_mine : (pod other : Bytes) → other ≢ [] → other ≢ pod → is_mine pod (other ∷ []) ≡ false
unfolding join
not_mine pod other there ne = rw (empty_ne other there, eqb_ne other pod ne) refl

mine :
    (pod : Bytes) (owners : List Bytes)
    → (owners ≡ []) ⊎ (owners ≡ pod ∷ [])
    → is_mine pod owners ≡ true
unfolding join empty
mine pod owners (inl e) = rw e refl
mine pod owners (inr e) = rw (e, eqb_refl pod) (ground arith)

module _ {E K : Type 0} (v : Parts E K) (k : EtcdContract v.etcd_client) (path name pod : Bytes)
    (full : path ≢ []) (simple : simple_netns path ≡ ok name) (hx : IsName name)
    (hp : IsName pod) where
  -- While ETCD answers, for a path of a namespace with a name, and where the names of the node,
  -- the namespace and the container are plain words without a slash or a comma: where the
  -- namespace is stored for another container, the call throws error 7, no list is written and
  -- the members of the plugin are kept.
  pub claim_netns-taken :
      (other : Bytes) (f : Items) (w : World E K)
      → IsName w.cni.node_name
      → other ≢ []
      → other ≢ pod
      → f (key_of (single_pod w.cni.node_name name)) ≡ other ∷ []
      → At k f w.etcd
      → Throws (claim_netns v pod path w) (cni_error 7) (Holds k w.cni f)
  unfolding claim_netns join
  claim_netns-taken other f w hn there ne kept at =
      let node = w.cni.node_name in
      Throws-bind (on_etcd (get_pod v.etcd_client node path)) _ w
        (on_etcd-Holds k (get_pod v.etcd_client node path) w w.cni f refl
          (get_pod-join k node path name pod hn hx hp full simple f w.etcd at))
        (λ u ku. Throws-first (require 7 (is_mine pod (f (key_of (single_pod node name))))) _ u (
          require-Throws (is_mine pod (f (key_of (single_pod node name)))) u
            (ap (is_mine pod) kept ∙ not_mine pod other there ne) ku))

  -- While ETCD answers, the names are such words and the path is a plain text without a comma:
  -- where the namespace is stored for no container, or for this one, the call returns; the
  -- container is then the namespace's and one more entry of the node's list, and its namespace is
  -- the path.
  pub claim_netns-free :
      (f : Items) (w : World E K)
      → IsName w.cni.node_name
      → IsItem path
      → (f (key_of (single_pod w.cni.node_name name)) ≡ [])
        ⊎ (f (key_of (single_pod w.cni.node_name name)) ≡ pod ∷ [])
      → At k f w.etcd
      → Returns (claim_netns v pod path w) tt (
          Holds k w.cni (
            update
              (with_pod f w.cni.node_name name pod)
              (key_of (netns w.cni.node_name pod))
              (path ∷ [])))
  unfolding claim_netns
  claim_netns-free f w hn item owner at =
      let node = w.cni.node_name in
      let c = v.etcd_client in
      etcd-bind k (get_pod c node path) _ w w.cni f refl
        (get_pod-join k node path name pod hn hx hp full simple f w.etcd at)
        (λ u ku.
          Returns-bind {Q = Holds k w.cni f}
            (require 7 (is_mine pod (f (key_of (single_pod node name))))) _ u
            (require-Returns (is_mine pod (f (key_of (single_pod node name)))) u
              (mine pod (f (key_of (single_pod node name))) owner) ku)
            (λ x kx.
              etcd_or_throw-bind k 278 (add_pod c node path pod) _ x w.cni _ kx.0
                (add_pod-At k node path name pod hn hx hp full simple f x.etcd kx.1)
                (λ y ky. given-step path _ y full (
                  etcd_or_throw-Holds k 278 (add_netns c node pod path) y w.cni _ ky.0
                    (add_netns-At k node pod pod (hn, hp, hp) path _ y.etcd item ky.1)))))
