-- ===== src/Cni/Interfaces/Network.antt =====
-- src/cni/cni.cc: what `configPodNetwork` does to an interface and to ETCD.
use ohno.Common.{◌≡◌, ◌≢◌, refl, ap, ◌∙◌, subst, true, some, [], ◌∷◌, ◌++◌, ◌-◌, ◌<◌, ◌^◌, ℕ, arith}
use ohno.Common.Bytes.{Bytes}
use ohno.Common.Exec.{ok, Returns}
use ohno.Etcd.Words.{IsName, IsItem, IsName-IsItem}
use ohno.Etcd.Client.{EtcdContract, Items, update, At}
use ohno.Net.Boost.{BoostLaws, NetworkV4, cidr_text}
use ohno.Net.Addr.{Addr, new, get_addr}
use ohno.Net.Addr.Parsed.{get_addr_cidr-new}
use ohno.Net.Netlink.{Route, RouteNhFlags}
use ohno.Net.Nic.Entries.Takes.{Takes, add_addr-Takes, add_route-Takes}
use ohno.Net.Subnet.Range.{IsPodCidr, size}
use ohno.Net.Device.{Device}
use ohno.Net.Nic.Entries
use ohno.Storage
use ohno.Ipam.{subnet_key, address_key, allocate_ip}
use ohno.Ipam.Allocate.{answer, first_free, allocate_ip-At, grant, cidr_text-IsItem}
use ohno.Storage.Keys.{key_of, addr, route}
use ohno.Storage.Devices.{add_addr-At}
use ohno.Storage.Routes.{add_route-At, value_of}
use ohno.Cni.{Parts, World}
use ohno.Cni.Interfaces.{config_pod_network, gateway_text, is_gateway}
use ohno.Cni.Holds.{
  given-step, check-step, lift-step, Holds, with_addr, with_route, etcd-bind, etcd_or_throw-bind,
  device_or_throw-bind, etcd_or_malformed-bind, device_or_malformed-bind,
}

abbrev pub default_route : Bytes → Bytes → Route
default_route via dev = record { dest = []; via = via; dev = dev }

-- The lists when an interface has the address `ip` and the route `r`.
abbrev pub configured : Items → Bytes → Bytes → Bytes → Bytes → Route → Items
configured f node pod nic ip r =
    let granted = grant f node (some ip) in
    let stored =
      update granted (key_of (addr node pod nic))
        (granted (key_of (addr node pod nic)) ++ ip ∷ []) in
    update stored (key_of (route node pod nic))
      (stored (key_of (route node pod nic)) ++ value_of r ∷ [])

module _ {E K : Type 0} (v : Parts E K) (k : EtcdContract v.etcd_client) (laws : BoostLaws v.boost)
    (t : Takes v.netlink) where
  -- While ETCD answers, Boost.Asio does what it documents and the kernel takes addresses and
  -- routes: for a node whose stored subnet is a pod CIDR, for a gateway with an address and a named
  -- interface object that can reach the kernel, and for names that are plain words without a
  -- slash or a comma: where the first free address of the subnet is `a`, the call returns; the
  -- object has that address and the default route by the gateway; the address is granted to the
  -- node; the address and the route are the last entries of the interface's lists; no other list
  -- of ETCD is written, and the members of the plugin are kept.
  pub config_pod_network_lem :
      (net : NetworkV4)
      → IsPodCidr net
      → (pod nic via : Bytes) (a : ℕ) (gateway : Addr) (d : Device) (f : Items) (w : World E K)
      → IsName w.cni.node_name
      → IsName pod
      → IsName nic
      → IsItem via
      → a < 2 ^ 32
      → w.cni.gateway ≡ some gateway
      → get_addr v.boost gateway ≡ ok via
      → d.base.locked ≡ true
      → d.base.name ≢ []
      → f (subnet_key w.cni.node_name) ≡ cidr_text net.address net.prefix_length ∷ []
      → first_free net (size net - 2) 1 (f (address_key w.cni.node_name))
        ≡ some (cidr_text a net.prefix_length)
      → At k f w.etcd
      → (let ip = cidr_text a net.prefix_length in
          let r = default_route via nic in
          Returns
            (config_pod_network v d nic pod w)
            (with_route (with_addr d (new v.boost ip)) r)
            (Holds k w.cni (configured f w.cni.node_name pod nic ip r)))
  unfolding config_pod_network gateway_text
  config_pod_network_lem net subnet pod nic via a gateway d f w hn hp hx hv ha gw text alive named
        own free at =
      let node = w.cni.node_name in
      let ip = cidr_text a net.prefix_length in
      let r = default_route via nic in
      let addr_obj = new v.boost ip in
      let item = cidr_text-IsItem a net.prefix_length in
      let spelled =
        (get_addr_cidr-new v.boost laws a net.prefix_length ha
          (omega (arith, subnet.prefix_lt))).0 in
      given-step nic _ w hx.0 (
        given-step pod _ w hp.0 (
          given-step node _ w hn.0 (
            check-step (is_gateway w.cni.gateway) _ w (ap is_gateway gw) (
              etcd-bind k (allocate_ip v.etcd_client v.boost node) _ w w.cni
                (grant f node (some ip)) refl
                (subst
                  (λ o.
                    Returns (allocate_ip v.etcd_client v.boost node w.etcd) (answer o)
                      (At k (grant f node o)))
                  free (allocate_ip-At k v.boost laws node hn net subnet f w.etcd own at))
                (λ u ku.
                  device_or_throw-bind k 7 (Entries.add_addr v.netlink v.boost addr_obj) _ u w.cni d
                    _ _ ku
                    (add_addr-Takes t v.boost addr_obj d.base u.kernel ip alive named spelled
                      item.0)
                    (λ x kx.
                      etcd_or_throw-bind k 278
                        (Storage.add_addr v.etcd_client v.boost node pod nic addr_obj) _ x w.cni _
                        kx.0
                        (add_addr-At k node pod nic (hn, hp, hx) v.boost addr_obj ip _ x.etcd
                          spelled item kx.1)
                        (λ y ky.
                          lift-step (gateway_text v.boost w.cni.gateway) _ y
                            (ap (gateway_text v.boost) gw ∙ text)
                            (device_or_malformed-bind k
                              (Entries.add_route v.netlink r RouteNhFlags.none) _ y w.cni
                              (with_addr d addr_obj) _ _ ky
                              (add_route-Takes t r RouteNhFlags.none _ y.kernel alive hv.0)
                              (λ z kz.
                                etcd_or_malformed-bind k
                                  (Storage.add_route v.etcd_client node pod nic r) _ z w.cni _ kz.0
                                  (add_route-At k node pod nic (hn, hp, hx) r _ z.etcd
                                    (tt, hv, IsName-IsItem nic hx) kz.1)
                                  (λ q kq. record { result = refl; after = kq }))))))))))
