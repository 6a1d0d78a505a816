-- ===== src/Cni/Interfaces/Removal.antt =====
-- src/cni/cni.cc: what `delKubernetesNic` removes from ETCD, and that it is what was stored.
use ohno.Common.{◌≡◌, refl, sym, ap, ◌∙◌, subst, Bool, true, false, [], if◌then◌else◌, ◌&&◌}
use ohno.Common.Bytes.{Bytes, eqb}
use ohno.Common.Exec.{Returns, Returns-bind, Returns-then, Returns-else, pure}
use ohno.Etcd.Words.{IsName, IsItem}
use ohno.Etcd.Client.{EtcdContract, Items, update, without, At}
use ohno.Ipam.{address_key, release_ip}
use ohno.Ipam.Lowest.{release_ip-At}
use ohno.Storage.{del_addr, del_route, del_nic, del_vtep}
use ohno.Storage.Keys.{key_of, addr, route, nic, vtep}
use ohno.Storage.Devices.{del_nic-At}
use ohno.Storage.Removals.{del_addr-At, del_route-At, del_vtep-At}
use ohno.Cni.{Cni, Parts, World, host, on_etcd, etcd_or_throw}
use ohno.Cni.Nodes.{is_vxlan}
use ohno.Cni.Interfaces.{forget_nic, forget_vtep, release_addr}
use ohno.Cni.Holds.{Holds, on_etcd-Holds, etcd_or_throw-Holds, etcd_or_throw-bind}

-- The lists when an interface of a pod is forgotten.
abbrev pub forgotten : Items → Bytes → Bytes → Bytes → Bytes → Items
forgotten f node pod dev ip =
    let released = update f (address_key node) (without ip (f (address_key node))) in
    let bare = update released (key_of (addr node pod dev)) [] in
    let unrouted = update bare (key_of (route node pod dev)) [] in
    update unrouted (key_of (nic node pod)) (without dev (unrouted (key_of (nic node pod))))

-- With the tunnel end point of the node, in vxlan mode.
abbrev pub without_vtep : Bool → Items → Bytes → Items
without_vtep vxlan f node = if vxlan then update f (key_of (vtep node)) [] else f

module _ {E K : Type 0} (v : Parts E K) (k : EtcdContract v.etcd_client) where
  release_addr-Holds :
      (pod iface ip : Bytes) (f : Items) (w : World E K)
      → IsName w.cni.node_name
      → IsItem ip
      → eqb pod host ≡ false
      → At k f w.etcd
      → (let a = address_key w.cni.node_name in
          Returns
            (release_addr v pod iface ip w)
            true
            (Holds k w.cni (update f a (without ip (f a)))))
  unfolding release_addr
  release_addr-Holds pod iface ip f w hn item other at =
      Returns-else (eqb pod host && eqb iface w.cni.node_underlay_dev) (pure true)
        (on_etcd (release_ip v.etcd_client w.cni.node_name ip)) w (rw other refl)
        (on_etcd-Holds k (release_ip v.etcd_client w.cni.node_name ip) w w.cni _ refl
          (release_ip-At k w.cni.node_name hn ip f w.etcd item at))

  forget_vtep-Holds :
      (pod dev : Bytes) (f : Items) (n : Cni) (w : World E K) (vxlan : Bool)
      → IsName n.node_name
      → IsName pod
      → IsName dev
      → is_vxlan n.ipam_mode ≡ vxlan
      → Holds k n f w
      → Returns (forget_vtep v w) tt (Holds k n (without_vtep vxlan f n.node_name))
  unfolding forget_vtep
  forget_vtep-Holds pod dev f n w true hn hp hd mode (e, at) =
      Returns-then (is_vxlan w.cni.ipam_mode) _ _ w (ap (λ c. is_vxlan c.ipam_mode) e ∙ mode) (
        subst
          (λ x.
            Returns (etcd_or_throw 278 (del_vtep v.etcd_client x) w) tt
              (Holds k n (without_vtep true f n.node_name)))
          (ap (λ c. c.node_name) (sym e))
          (etcd_or_throw-Holds k 278 (del_vtep v.etcd_client n.node_name) w n _ e
            (del_vtep-At k n.node_name pod dev (hn, hp, hd) f w.etcd at)))
  forget_vtep-Holds pod dev f n w false hn hp hd mode (e, at) =
      Returns-else (is_vxlan w.cni.ipam_mode) _ _ w (ap (λ c. is_vxlan c.ipam_mode) e ∙ mode)
        (record { result = refl; after = (e, at) })

  -- While ETCD answers, for a pod other than the root namespace whose name, like those of the node and
  -- of the interface, is a plain word without a slash or a comma: `forgetNic` returns.
  pub forget_nic-Holds :
      (pod dev iface ip : Bytes) (f : Items) (w : World E K)
      → IsName w.cni.node_name
      → IsName pod
      → IsName dev
      → IsItem ip
      → eqb pod host ≡ false
      → At k f w.etcd
      → Returns (forget_nic v pod dev iface ip w) tt (
          Holds k w.cni (
            without_vtep
              (is_vxlan w.cni.ipam_mode)
              (forgotten f w.cni.node_name pod dev ip)
              w.cni.node_name))
  unfolding forget_nic
  forget_nic-Holds pod dev iface ip f w hn hp hd item other at =
      let node = w.cni.node_name in
      let c = v.etcd_client in
      Returns-bind (release_addr v pod iface ip) _ w
        (release_addr-Holds pod iface ip f w hn item other at)
        (λ u ku.
          etcd_or_throw-bind k 278 (del_addr c node pod dev) _ u w.cni _ ku.0
            (del_addr-At k node pod dev (hn, hp, hd) _ u.etcd ku.1)
            (λ x kx.
              etcd_or_throw-bind k 278 (del_route c node pod dev) _ x w.cni _ kx.0
                (del_route-At k node pod dev (hn, hp, hd) _ x.etcd kx.1)
                (λ y ky.
                  etcd_or_throw-bind k 278 (del_nic c node pod dev) _ y w.cni _ ky.0
                    (del_nic-At k node pod dev (hn, hp, hd) _ y.etcd ky.1)
                    (λ z kz. forget_vtep-Holds pod dev _ w.cni z _ hn hp hd refl kz))))
