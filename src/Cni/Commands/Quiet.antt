-- ===== src/Cni/Commands/Quiet.antt =====
-- src/cni/cni.cc: DEL ends by no exception, and does nothing for a node without a subnet.
use ohno.Common.{◌≡◌, ◌≢◌, refl, sym, ap, ◌∙◌, subst, true, false, [], ◌⊎◌, inl, inr}
use ohno.Common.Bytes.{Bytes}
use ohno.Common.Exec.{
  Outcome, ok, fault, assertion, undefined, exception, cni_error, Returns, Returns-bind, Throws,
  Throws-bind,
}
use ohno.Etcd.Words.{IsName}
use ohno.Etcd.Client.{EtcdContract, Items, At}
use ohno.Backend.Center.{NodeFacts, get_node_info}
use ohno.Ipam.{subnet_key}
use ohno.Cni.{Cni, Parts, World, change}
use ohno.Cni.Restore.{get_kubernetes_cluster}
use ohno.Cni.Restore.Unknown.{get_kubernetes_cluster-unknown}
use ohno.Cni.Nodes.{get_kubernetes_node}
use ohno.Cni.Nodes.Lookup.{get_kubernetes_node-unknown}
use ohno.Cni.Commands.{start, del, del_body, caught}
use ohno.Cni.Holds.{Holds, given-throw, kernel-step}

abbrev pub facts_of : Cni → NodeFacts
facts_of c = record {
  node_name = c.node_name;
  underlay_dev = c.node_underlay_dev;
  underlay_addr = c.node_underlay_addr;
}

abbrev pub located : Cni → NodeFacts → Cni
located c i = record c {
  node_name = i.node_name;
  node_underlay_dev = i.underlay_dev;
  node_underlay_addr = i.underlay_addr;
}

caught_quiet :
    (o : Outcome (Unit {0}))
    → (caught o ≡ ok tt) ⊎ (caught o ≡ fault assertion) ⊎ (caught o ≡ fault undefined)
unfolding caught
caught_quiet (ok u) = inl refl
caught_quiet (fault assertion) = inr (inl refl)
caught_quiet (fault undefined) = inr (inr refl)
caught_quiet (fault exception) = inl refl
caught_quiet (fault (cni_error c)) = inl refl

module _ {E K : Type 0} (v : Parts E K) where
  -- For every state of the program, of ETCD and of the system: `del` returns, or it ends by a failed
  -- assertion or by undefined behaviour; no exception leaves it.
  pub del-quiet :
      (container_id nic_name : Bytes) (w : World E K)
      → (let r = (del v container_id nic_name w).0 in
          (r ≡ ok tt) ⊎ (r ≡ fault assertion) ⊎ (r ≡ fault undefined))
  unfolding del
  del-quiet container_id nic_name w = caught_quiet (del_body v container_id nic_name w).0

  module _ (k : EtcdContract v.etcd_client) where
    start-unknown :
        (i : NodeFacts) (f : Items) (w : World E K)
        → (get_node_info v.shell (facts_of w.cni) w.kernel).0 ≡ ok (true, i)
        → IsName i.node_name
        → i.underlay_dev ≢ []
        → i.underlay_addr ≢ []
        → f (subnet_key i.node_name) ≡ []
        → At k f w.etcd
        → Returns (start v w) tt (Holds k (record (located w.cni i) { cluster = [] }) f)
    unfolding start
    start-unknown i f w said hn dev addr none at =
        let t : World E K = record w {
          cni = located w.cni i;
          kernel = (get_node_info v.shell (facts_of w.cni) w.kernel).1;
        } in
        kernel-step (get_node_info v.shell (facts_of w.cni)) _ w said (
          Returns-bind (get_kubernetes_cluster v)
            (λ cluster. change (λ m. record m { cluster = cluster })) t
            (get_kubernetes_cluster-unknown v k f t hn dev addr none at)
            (λ u ku. record {
              result = refl;
              after = (ap (λ (c : Cni). record c { cluster = [] }) ku.0, ku.1);
            }))

    -- While ETCD answers: for a node of which the shell tells the name, a plain word without a
    -- slash or a comma, the device and the address, and for which no subnet is stored, `del` of
    -- any container and any interface, whose names are not empty, returns; no list is written,
    -- and the cluster that it leaves has no node.
    pub del-unknown :
        (container_id nic_name : Bytes) (i : NodeFacts) (f : Items) (w : World E K)
        → container_id ≢ []
        → nic_name ≢ []
        → (get_node_info v.shell (facts_of w.cni) w.kernel).0 ≡ ok (true, i)
        → IsName i.node_name
        → i.underlay_dev ≢ []
        → i.underlay_addr ≢ []
        → f (subnet_key i.node_name) ≡ []
        → At k f w.etcd
        → Returns (del v container_id nic_name w) tt (λ u. At k f u.etcd × (u.cni.cluster ≡ []))
    unfolding del del_body caught
    del-unknown container_id nic_name i f w given_id given_nic said hn dev addr none at =
        let body : Throws (del_body v container_id nic_name w) (cni_error 278)
            (λ u. At k f u.etcd × (u.cni.cluster ≡ [])) =
          given-throw container_id _ w given_id (
            given-throw nic_name _ w given_nic (
              Throws-bind (start v) _ w (start-unknown i f w said hn dev addr none at) (λ u ku.
                Throws-bind (get_kubernetes_node v false) _ u
                  (get_kubernetes_node-unknown v u
                    (λ e. hn.0 (sym (ap (λ (c : Cni). c.node_name) ku.0) ∙ e))
                    (λ e. dev (sym (ap (λ (c : Cni). c.node_underlay_dev) ku.0) ∙ e))
                    (λ e. addr (sym (ap (λ (c : Cni). c.node_underlay_addr) ku.0) ∙ e))
                    (ap (λ (c : Cni). c.cluster) ku.0))
                  (λ x kx. record {
                    thrown = refl;
                    after = (subst (At k f) (sym kx.0) ku.1, kx.1);
                  })))) in
        record { result = ap caught body.thrown; after = body.after }
