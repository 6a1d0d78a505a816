-- ===== src/Cni/Restore/Unknown.antt =====
-- src/cni/cni.cc: a node without a subnet has an empty cluster.
use ohno.Common.{◌≡◌, ◌≢◌, refl, []}
use ohno.Common.Exec.{Returns}
use ohno.Etcd.Words.{IsName}
use ohno.Etcd.Client.{EtcdContract, Items, At}
use ohno.Ipam.{subnet_key, get_subnet}
use ohno.Ipam.Subnets.{get_nothing}
use ohno.Cni.{Parts, World}
use ohno.Cni.Restore.{get_kubernetes_cluster}
use ohno.Cni.Holds.{Holds, etcd-bind, given-step}

module _ {E K : Type 0} (v : Parts E K) (k : EtcdContract v.etcd_client) where
  pub get_kubernetes_cluster-unknown :
      (f : Items) (w : World E K)
      → IsName w.cni.node_name
      → w.cni.node_underlay_dev ≢ []
      → w.cni.node_underlay_addr ≢ []
      → f (subnet_key w.cni.node_name) ≡ []
      → At k f w.etcd
      → Returns (get_kubernetes_cluster v w) [] (Holds k w.cni f)
  unfolding get_kubernetes_cluster
  get_kubernetes_cluster-unknown f w hn dev addr none at = given-step w.cni.node_name _ w hn.0 (
      given-step w.cni.node_underlay_dev _ w dev (
        given-step w.cni.node_underlay_addr _ w addr (
          etcd-bind k (get_subnet v.etcd_client w.cni.node_name) _ w w.cni f refl
            (get_nothing k w.cni.node_name hn f w.etcd none at)
            (λ u ku. record { result = refl; after = ku }))))
