-- ===== src/Net/Nic/Entries/Takes.antt =====
-- An interface of a kernel that takes addresses and routes, where the arguments that
-- src/net/netlink/netlink_ip_cmd.cc asserts to be there are there.
use ohno.Common.{◌≡◌, ◌≢◌, refl, Bool, true, false, [], ◌∷◌, ◌++◌, if◌then◌else◌}
use ohno.Common.Bytes.{Bytes}
use ohno.Common.Exec.{Exec, ok, Returns, Returns-then, pure, ◌>>=◌}
use ohno.Net.Boost.{Boost}
use ohno.Net.Addr.{Addr, get_addr_cidr}
use ohno.Net.Netlink.{Netlink, RouteNhFlags, Route}
use ohno.Net.Nic.{Nic, kernel}
use ohno.Net.Nic.Entries.{add_addr, add_route}
use ohno.Net.Nic.Entries.Table.{kernel-bind}

-- It answers whether it has an address or a route, and takes the ones that it is given: for a device
-- and an address that are not empty, and a next hop that is not empty.
pub record Takes {K : Type 0} (ntl : Netlink K) : Type 0 where
  pub asks_address :
      (name addr netns : Bytes) (k : K)
      → name ≢ []
      → addr ≢ []
      → (e : Bool) × ((ntl.address_is_exist name addr netns k).0 ≡ ok e)
  pub sets_address :
      (name addr netns : Bytes) (k : K)
      → name ≢ []
      → addr ≢ []
      → (ntl.address_set_entry name addr true netns k).0 ≡ ok true
  pub asks_route :
      (dst via dev netns : Bytes) (k : K)
      → via ≢ []
      → (e : Bool) × ((ntl.route_is_exist dst via dev netns k).0 ≡ ok e)
  pub sets_route :
      (dst via dev netns : Bytes) (flags : RouteNhFlags) (k : K)
      → via ≢ []
      → (ntl.route_set_entry dst via true dev netns flags k).0 ≡ ok true

module _ {K : Type 0} where
  -- The object is `m`.
  abbrev pub Is : Nic → Nic × K → Type 0
  Is m s = s.0 ≡ m

  -- Ask the kernel only if the entry is not there.
  unless-bind :
      {m : Nic} (e : Bool) (call : Exec K Bool) (f : Bool → Exec (Nic × K) Bool) (n : Nic) (k : K)
      → (call k).0 ≡ ok true
      → ((l : K) → Returns (f true (n, l)) true (Is m))
      → Returns (((if e then pure true else kernel call) >>= f) (n, k)) true (Is m)
  unless-bind true call f n k h g = g k
  unless-bind false call f n k h g = kernel-bind call f n k h (g (call k).1)

  module _ {ntl : Netlink K} (t : Takes ntl) where
    pub add_addr-Takes :
        (b : Boost) (a : Addr) (n : Nic) (k : K) (text : Bytes)
        → n.locked ≡ true
        → n.name ≢ []
        → get_addr_cidr b a ≡ ok text
        → text ≢ []
        → Returns (add_addr ntl b a (n, k)) true (Is (record n { addrs = n.addrs ++ a ∷ [] }))
    unfolding add_addr
    add_addr-Takes b a n k text alive named e full =
        let (there, asked) = t.asks_address n.name text n.netns k named full in
        rw e (
          Returns-then n.locked _ _ (n, k) alive
            (kernel-bind (ntl.address_is_exist n.name text n.netns) _ n k asked (
              unless-bind there _ _ n _ (t.sets_address n.name text n.netns _ named full)
                (λ l. record { result = refl; after = refl }))))

    pub add_route-Takes :
        (r : Route) (flags : RouteNhFlags) (n : Nic) (k : K)
        → n.locked ≡ true
        → r.via ≢ []
        → Returns
            (add_route ntl r flags (n, k))
            true
            (Is (record n { routes = n.routes ++ r ∷ [] }))
    unfolding add_route
    add_route-Takes r flags n k alive hop =
        let (there, asked) = t.asks_route r.dest r.via r.dev n.netns k hop in
        Returns-then n.locked _ _ (n, k) alive
          (kernel-bind (ntl.route_is_exist r.dest r.via r.dev n.netns) _ n k asked (
            unless-bind there _ _ n _ (t.sets_route r.dest r.via r.dev n.netns flags _ hop)
              (λ l. record { result = refl; after = refl })))
