-- ===== src/Cni/Interfaces/RoundTrip.antt =====
-- src/cni/cni.cc: an interface of a pod is stored, configured and forgotten.
use ohno.Common.{
  ℕ, List, ◌≡◌, ◌≢◌, refl, sym, ap, ◌∙◌, subst, true, false, [], ◌∷◌, ◌++◌, ◌^◌, ◌<◌, ◌-◌, some,
  inl, inr, arith,
}
use ohno.Common.Bytes.{Bytes, contains, eqb}
use ohno.Common.Exec.{ok, Returns, Returns-bind, ◌>>=◌, ◌>>◌}
use ohno.Etcd.Words.{IsName, IsItem}
use ohno.Etcd.Client.{EtcdContract, Items, update, update_ne, At}
use ohno.Net.Boost.{BoostLaws, NetworkV4, cidr_text}
use ohno.Net.Addr.{Addr, new, get_addr}
use ohno.Net.Nic.Entries.Takes.{Takes}
use ohno.Net.Subnet.Range.{IsPodCidr, size}
use ohno.Net.Device.{Device}
use ohno.Ipam.{subnet_key, address_key}
use ohno.Ipam.Allocate.{first_free, cidr_text-IsItem}
use ohno.Ipam.Lowest.{first_free-cases}
use ohno.Storage.{add_nic, get_nic_key}
use ohno.Storage.Keys.{key_of, addr, route, nic}
use ohno.Storage.Devices.{add_nic-At}
use ohno.Cni.{Cni, Parts, World, host, etcd_or_throw}
use ohno.Cni.Nodes.{is_vxlan}
use ohno.Cni.Interfaces.{config_pod_network, forget_nic}
use ohno.Cni.Interfaces.Network.{default_route, configured, config_pod_network_lem}
use ohno.Cni.Interfaces.Removal.{forgotten, without_vtep, forget_nic-Holds}
use ohno.Cni.Interfaces.Restored.{forgotten-configured, address-ne-key}
use ohno.Cni.Holds.{Holds, etcd_or_throw-bind, with_addr, with_route}

some_injective : {x y : Bytes} → some x ≡ some y → x ≡ y
some_injective e = cc

-- The first free address is not taken.
free-fresh :
    (net : NetworkV4) (taken : List Bytes) (n : ℕ) (ip : Bytes)
    → first_free net n 1 taken ≡ some ip
    → contains taken ip ≡ false
free-fresh net taken n ip e = elim (first_free-cases net n 1 taken) [
  | inl (h, found, (lo, hi, fresh, below)) ↦
      subst (λ x. contains taken x ≡ false) (some_injective (sym found ∙ e)) fresh
  | inr (not_found, full) ↦ cc
]

subnet-ne-nic : (n m p : Bytes) → key_of (nic m p) ≢ subnet_key n
unfolding get_nic_key
subnet-ne-nic n m p e = ground arith

module _ {E K : Type 0} (v : Parts E K) (k : EtcdContract v.etcd_client) (laws : BoostLaws v.boost)
    (t : Takes v.netlink) where
  -- The same at a state whose members are known.
  config-at :
      (c : Cni) (net : NetworkV4)
      → IsPodCidr net
      → (pod dev via : Bytes) (a : ℕ) (gateway : Addr) (d : Device) (f : Items) (w : World E K)
      → IsName c.node_name
      → IsName pod
      → IsName dev
      → IsItem via
      → a < 2 ^ 32
      → c.gateway ≡ some gateway
      → get_addr v.boost gateway ≡ ok via
      → d.base.locked ≡ true
      → d.base.name ≢ []
      → f (subnet_key c.node_name) ≡ cidr_text net.address net.prefix_length ∷ []
      → first_free net (size net - 2) 1 (f (address_key c.node_name))
        ≡ some (cidr_text a net.prefix_length)
      → Holds k c f w
      → (let ip = cidr_text a net.prefix_length in
          let r = default_route via dev in
          Returns
            (config_pod_network v d dev pod w)
            (with_route (with_addr d (new v.boost ip)) r)
            (Holds k c (configured f c.node_name pod dev ip r)))
  config-at c net subnet pod dev via a gateway d f w hn hp hx hv ha gw text alive named own free
        (e, at) =
      let ip = cidr_text a net.prefix_length in
      let r = default_route via dev in
      subst
        (λ m.
          Returns (config_pod_network v d dev pod w) (with_route (with_addr d (new v.boost ip)) r)
            (Holds k m (configured f m.node_name pod dev ip r)))
        e
        (config_pod_network_lem v k laws t net subnet pod dev via a gateway d f w
          (subst (λ m. IsName m.node_name) (sym e) hn) hp hx hv ha (ap (λ m. m.gateway) e ∙ gw) text
          alive named
          (subst (λ m. f (subnet_key m.node_name) ≡ cidr_text net.address net.prefix_length ∷ [])
            (sym e) own)
          (subst (λ m. first_free net (size net - 2) 1 (f (address_key m.node_name)) ≡ some ip)
            (sym e) free)
          at)

  forget-at :
      (c : Cni) (pod dev iface ip : Bytes) (f : Items) (w : World E K)
      → IsName c.node_name
      → IsName pod
      → IsName dev
      → IsItem ip
      → eqb pod host ≡ false
      → Holds k c f w
      → Returns (forget_nic v pod dev iface ip w) tt (
          Holds k c
            (without_vtep (is_vxlan c.ipam_mode) (forgotten f c.node_name pod dev ip) c.node_name))
  forget-at c pod dev iface ip f w hn hp hd item other (e, at) =
      subst
        (λ m. Returns (forget_nic v pod dev iface ip w) tt (
          Holds k m
            (without_vtep (is_vxlan m.ipam_mode) (forgotten f m.node_name pod dev ip) m.node_name)))
        e
        (forget_nic-Holds v k pod dev iface ip f w (subst (λ m. IsName m.node_name) (sym e) hn) hp
          hd item other at)

  -- While ETCD answers, Boost.Asio does what it documents and the kernel takes addresses and
  -- routes: for a node whose stored subnet is a pod CIDR with a free address, of which `a` is the
  -- first, for a gateway with an address, a pod other than the host and a named interface object
  -- that can reach the kernel, and for names that are plain words without a slash or a comma: where no
  -- address and no route is stored for the interface and it is not in the list of the pod,
  -- storing the interface, configuring it and forgetting it again returns, and every list of ETCD
  -- is then what it was, except that in the mode vxlan the list of the tunnel end point of the
  -- node is empty.
  pub add_then_forget :
      (net : NetworkV4)
      → IsPodCidr net
      → (pod dev iface via : Bytes) (a : ℕ) (gateway : Addr) (d : Device) (f : Items)
        (w : World E K)
      → IsName w.cni.node_name
      → IsName pod
      → IsName dev
      → IsItem via
      → a < 2 ^ 32
      → eqb pod host ≡ false
      → w.cni.gateway ≡ some gateway
      → get_addr v.boost gateway ≡ ok via
      → d.base.locked ≡ true
      → d.base.name ≢ []
      → f (subnet_key w.cni.node_name) ≡ cidr_text net.address net.prefix_length ∷ []
      → first_free net (size net - 2) 1 (f (address_key w.cni.node_name))
        ≡ some (cidr_text a net.prefix_length)
      → f (key_of (addr w.cni.node_name pod dev)) ≡ []
      → f (key_of (route w.cni.node_name pod dev)) ≡ []
      → contains (f (key_of (nic w.cni.node_name pod))) dev ≡ false
      → At k f w.etcd
      → Returns
          ((etcd_or_throw 278 (add_nic v.etcd_client w.cni.node_name pod dev)
              >> (config_pod_network v d dev pod >>= λ x.
                  forget_nic v pod dev iface (cidr_text a net.prefix_length)))
            w)
          tt
          (Holds k w.cni (without_vtep (is_vxlan w.cni.ipam_mode) f w.cni.node_name))
  add_then_forget net subnet pod dev iface via a gateway d f w hn hp hx hv ha other gw text alive
        named own free no_addr no_route new_nic at =
      let node = w.cni.node_name in
      let key = key_of (nic node pod) in
      let f1 = update f key (f key ++ dev ∷ []) in
      let ip = cidr_text a net.prefix_length in
      let r = default_route via dev in
      let apart : f1 (address_key node) ≡ f (address_key node) =
        update_ne f key (address_key node) (f key ++ dev ∷ [])
          (λ e. (address-ne-key node node pod dev).2 (sym e)) in
      let kept : f1 (subnet_key node) ≡ f (subnet_key node) =
        update_ne f key (subnet_key node) (f key ++ dev ∷ []) (subnet-ne-nic node node pod) in
      etcd_or_throw-bind k 278 (add_nic v.etcd_client node pod dev) _ w w.cni f1 refl
        (add_nic-At k node pod dev (hn, hp, hx) f w.etcd at)
        (λ u ku.
          Returns-bind (config_pod_network v d dev pod) _ u
            (config-at w.cni net subnet pod dev via a gateway d f1 u hn hp hx hv ha gw text alive
              named (kept ∙ own) (ap (first_free net (size net - 2) 1) apart ∙ free) ku)
            (λ x kx.
              subst
                (λ g.
                  Returns (forget_nic v pod dev iface ip x) tt
                    (Holds k w.cni (without_vtep (is_vxlan w.cni.ipam_mode) g node)))
                (forgotten-configured f node pod dev ip r hn hp hx no_addr no_route
                  (free-fresh net (f (address_key node)) (size net - 2) ip free) new_nic)
                (forget-at w.cni pod dev iface ip _ x hn hp hx
                  (cidr_text-IsItem a net.prefix_length) other kx)))
