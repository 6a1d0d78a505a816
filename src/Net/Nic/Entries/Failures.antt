-- ===== src/Net/Nic/Entries/Failures.antt =====
-- An operation of an interface that does not succeed leaves the object as it was.
use ohno.Common.{◌≡◌, refl, Bool, true, false, not, [], if◌then◌else◌, ◌⊎◌, inl, inr}
use ohno.Common.Bytes.{Bytes, empty}
use ohno.Common.Exec.{Exec, Outcome, ok, fault, assertion, pure, lift, check, continue, ◌>>=◌, ◌>>◌}
use ohno.Net.Boost.{Boost}
use ohno.Net.Addr.{Addr, get_addr_cidr}
use ohno.Net.Netlink.{Netlink, LinkStatus, RouteNhFlags, Route, Neigh, Fdb}
use ohno.Net.Nic.{Nic, kernel, change, rename, set_name, set_netns, set_status, simple_netns}
use ohno.Net.Nic.Entries.{
  add_addr, del_addr, add_route, del_route, add_neigh, del_neigh, add_fdb, del_fdb,
}

-- A route is deleted only by a next hop that is given.
pub del_route-no_via :
    {K : Type 0} (ntl : Netlink K) (dst dev : Bytes) (s : Nic × K)
    → del_route ntl dst [] dev s ≡ (fault assertion, s)
unfolding del_route empty
del_route-no_via ntl dst dev s = refl

module _ {K : Type 0} where
  -- The object is as it was, or the call returned `true`.
  abbrev pub Keeps : Exec (Nic × K) Bool → Type 0
  Keeps m = (s : Nic × K) → ((m s).1.0 ≡ s.0) ⊎ ((m s).0 ≡ ok true)

  outcome-Keeps :
      {A : Type 0} (f : A → Exec (Nic × K) Bool) (o : Outcome A) (n : Nic) (k : K)
      → ((a : A) → Keeps (f a))
      → ((continue o f (n, k)).1.0 ≡ n) ⊎ ((continue o f (n, k)).0 ≡ ok true)
  outcome-Keeps f (ok a) n k h = h a (n, k)
  outcome-Keeps f (fault e) n k h = inl refl

  kernel-Keeps :
      {A : Type 0} (m : Exec K A) (f : A → Exec (Nic × K) Bool)
      → ((a : A) → Keeps (f a))
      → Keeps (kernel m >>= f)
  kernel-Keeps m f h (n, k) = outcome-Keeps f (m k).0 n (m k).1 h

  lift-Keeps :
      {A : Type 0} (o : Outcome A) (f : A → Exec (Nic × K) Bool)
      → ((a : A) → Keeps (f a))
      → Keeps (lift o >>= f)
  lift-Keeps o f h (n, k) = outcome-Keeps f o n k h

  check-Keeps : (t : Bool) (m : Exec (Nic × K) Bool) → Keeps m → Keeps (check t >> m)
  check-Keeps true m h s = h s
  check-Keeps false m h s = inl refl

  if-Keeps : (t : Bool) (m l : Exec (Nic × K) Bool) → Keeps m → Keeps l → Keeps (if t then m else l)
  if-Keeps true m l hm hl = hm
  if-Keeps false m l hm hl = hl

  -- The end of each operation.
  done-Keeps :
      (t : Bool) (g : Nic → Nic) → Keeps (if t then (do change g; pure true) else pure false)
  done-Keeps true g s = inr refl
  done-Keeps false g s = inl refl

  -- Ask the kernel only if the entry is not there.
  unless-Keeps :
      (t : Bool) (m : Exec K Bool) (f : Bool → Exec (Nic × K) Bool)
      → ((a : Bool) → Keeps (f a))
      → Keeps ((if t then pure true else kernel m) >>= f)
  unless-Keeps true m f h = h true
  unless-Keeps false m f h = kernel-Keeps m f h

  checked-Keeps : (t : Bool) (g : Nic → Nic) → Keeps ((check t >> change g) >> pure true)
  checked-Keeps true g s = inr refl
  checked-Keeps false g s = inl refl

  no_lock : Keeps (pure false)
  no_lock s = inl refl

  module _ (ntl : Netlink K) where
    add_addr-Keeps : (b : Boost) (a : Addr) → Keeps (add_addr ntl b a)
    unfolding add_addr
    add_addr-Keeps b a (n, k) =
        lift-Keeps (get_addr_cidr b a) _
          (λ text.
            if-Keeps n.locked _ (pure false)
              (kernel-Keeps (ntl.address_is_exist n.name text n.netns) _ (λ e.
                unless-Keeps e (ntl.address_set_entry n.name text true n.netns) _
                  (λ t. done-Keeps t _)))
              no_lock)
          (n, k)

    add_route-Keeps : (r : Route) (flags : RouteNhFlags) → Keeps (add_route ntl r flags)
    unfolding add_route
    add_route-Keeps r flags (n, k) =
        if-Keeps n.locked _ (pure false)
          (kernel-Keeps (ntl.route_is_exist r.dest r.via r.dev n.netns) _ (λ e.
            unless-Keeps e (ntl.route_set_entry r.dest r.via true r.dev n.netns flags) _
              (λ t. done-Keeps t _)))
          no_lock (n, k)

    add_neigh-Keeps : (g : Neigh) → Keeps (add_neigh ntl g)
    unfolding add_neigh
    add_neigh-Keeps g = check-Keeps (not (empty g.addr)) _ (
        check-Keeps (not (empty g.mac)) _ (λ (n, k).
          if-Keeps n.locked _ (pure false)
            (kernel-Keeps (ntl.neigh_is_exist g.addr g.dev n.netns) _ (λ e.
              unless-Keeps e (ntl.neigh_set_entry g.addr g.mac true g.dev n.netns) _
                (λ t. done-Keeps t _)))
            no_lock (n, k)))

    add_fdb-Keeps : (d : Fdb) → Keeps (add_fdb ntl d)
    unfolding add_fdb
    add_fdb-Keeps d = check-Keeps (not (empty d.mac)) _ (
        check-Keeps (not (empty d.underlay_addr)) _ (
          check-Keeps (not (empty d.dev)) _ (λ (n, k).
            if-Keeps n.locked _ (pure false)
              (kernel-Keeps (ntl.fdb_is_exist d.mac d.underlay_addr d.dev n.netns) _ (λ e.
                unless-Keeps e (ntl.fdb_set_entry d.mac d.underlay_addr d.dev true n.netns) _
                  (λ t. done-Keeps t _)))
              no_lock (n, k))))

    -- Ask the kernel, and delete only if the entry is there.
    delete-Keeps :
        (n : Nic) (ask : Exec K Bool) (m : Exec (Nic × K) Bool)
        → Keeps m
        → Keeps (if n.locked then (kernel ask >>= λ e. if e then m else pure true) else pure false)
    delete-Keeps n ask m h =
        if-Keeps n.locked _ (pure false)
          (kernel-Keeps ask _ (λ e. if-Keeps e m (pure true) h (λ s. inr refl))) no_lock

    del_addr-Keeps : (b : Boost) (cidr : Bytes) → Keeps (del_addr ntl b cidr)
    unfolding del_addr
    del_addr-Keeps b cidr = check-Keeps (not (empty cidr)) _ (λ (n, k).
        delete-Keeps n (ntl.address_is_exist n.name cidr n.netns) _
          (kernel-Keeps (ntl.address_set_entry n.name cidr false n.netns) _
            (λ t. if-Keeps t _ (pure false) (lift-Keeps _ _ (λ rest s. inr refl)) no_lock))
          (n, k))

    del_route-Keeps : (dst via dev : Bytes) → Keeps (del_route ntl dst via dev)
    unfolding del_route
    del_route-Keeps dst via dev = check-Keeps (not (empty via)) _ (λ (n, k).
        delete-Keeps n (ntl.route_is_exist dst via dev n.netns) _
          (kernel-Keeps (ntl.route_set_entry dst via false dev n.netns RouteNhFlags.none) _
            (λ t. done-Keeps t _))
          (n, k))

    del_neigh-Keeps : (addr mac dev : Bytes) → Keeps (del_neigh ntl addr mac dev)
    unfolding del_neigh
    del_neigh-Keeps addr mac dev = check-Keeps (not (empty addr)) _ (
        check-Keeps (not (empty mac)) _ (λ (n, k).
          delete-Keeps n (ntl.neigh_is_exist addr dev n.netns) _
            (kernel-Keeps (ntl.neigh_set_entry addr mac false dev n.netns) _ (λ t. done-Keeps t _))
            (n, k)))

    del_fdb-Keeps : (addr mac dev : Bytes) → Keeps (del_fdb ntl addr mac dev)
    unfolding del_fdb
    del_fdb-Keeps addr mac dev = check-Keeps (not (empty addr)) _ (
        check-Keeps (not (empty mac)) _ (
          check-Keeps (not (empty dev)) _ (λ (n, k).
            delete-Keeps n (ntl.fdb_is_exist mac addr dev n.netns) _
              (kernel-Keeps (ntl.fdb_set_entry mac addr dev false n.netns) _ (λ t. done-Keeps t _))
              (n, k))))

    rename-Keeps : (name : Bytes) → Keeps (rename ntl name)
    unfolding rename set_name
    rename-Keeps name (n, k) =
        if-Keeps (empty name) (pure true) _ (λ s. inr refl)
          (if-Keeps n.locked _ (pure false)
            (kernel-Keeps (ntl.link_rename n.name name n.netns) _
              (λ t. if-Keeps t _ (pure false) (checked-Keeps (not (empty name)) _) no_lock))
            no_lock)
          (n, k)

    set_netns-Keeps : (netns : Bytes) → Keeps (set_netns ntl netns)
    unfolding set_netns
    set_netns-Keeps netns = check-Keeps (not (empty netns)) _ (λ (n, k).
        if-Keeps n.locked _ (pure false)
          (lift-Keeps (simple_netns netns) _ (λ simple.
            kernel-Keeps (ntl.link_is_in_netns n.name simple) _
              (λ e. unless-Keeps e (ntl.link_to_netns n.name simple) _ (λ t. done-Keeps t _))))
          no_lock (n, k))

    set_status-Keeps : (status : LinkStatus) → Keeps (set_status ntl status)
    unfolding set_status
    set_status-Keeps status (n, k) =
        if-Keeps n.locked _ (pure false)
          (kernel-Keeps (ntl.link_set_status n.name status n.netns) _ (λ t. done-Keeps t _)) no_lock
          (n, k)

    -- For every kernel: an `addAddr`, `addRoute`, `addNeigh` or `addFdb` that does not return `true`,
    -- because it fails, throws or aborts, leaves the interface object unchanged.
    adds-Keep :
        (b : Boost) (a : Addr) (r : Route) (flags : RouteNhFlags) (g : Neigh) (d : Fdb)
        → Keeps (add_addr ntl b a)
          × Keeps (add_route ntl r flags)
          × Keeps (add_neigh ntl g)
          × Keeps (add_fdb ntl d)
    adds-Keep b a r flags g d =
        (add_addr-Keeps b a, add_route-Keeps r flags, add_neigh-Keeps g, add_fdb-Keeps d)

    -- For every kernel: a `delAddr`, `delRoute`, `delNeigh` or `delFdb` that does not return `true`
    -- leaves the interface object unchanged.
    dels-Keep :
        (b : Boost) (addr mac dev via : Bytes)
        → Keeps (del_addr ntl b addr)
          × Keeps (del_route ntl addr via dev)
          × Keeps (del_neigh ntl addr mac dev)
          × Keeps (del_fdb ntl addr mac dev)
    dels-Keep b addr mac dev via = (
      del_addr-Keeps b addr,
      del_route-Keeps addr via dev,
      del_neigh-Keeps addr mac dev,
      del_fdb-Keeps addr mac dev,
    )

    -- For every kernel: a `rename`, `setNetns` or `setStatus` that does not return `true` leaves the
    -- interface object unchanged, its name, namespace and status included.
    setters-Keep :
        (name netns : Bytes) (status : LinkStatus)
        → Keeps (rename ntl name) × Keeps (set_netns ntl netns) × Keeps (set_status ntl status)
    setters-Keep name netns status =
        (rename-Keeps name, set_netns-Keeps netns, set_status-Keeps status)

    -- For every kernel: an `addAddr`, `addRoute`, `addNeigh`, `addFdb`, `delAddr`, `delRoute`,
    -- `delNeigh`, `delFdb`, `rename`, `setNetns` or `setStatus` that does not return `true`, because it
    -- fails, throws or aborts, leaves the interface object unchanged.
    pub operations-Keep :
        (b : Boost) (a : Addr) (r : Route) (flags : RouteNhFlags) (g : Neigh) (d : Fdb)
        (text : Bytes) (status : LinkStatus)
        → (Keeps (add_addr ntl b a)
            × Keeps (add_route ntl r flags)
            × Keeps (add_neigh ntl g)
            × Keeps (add_fdb ntl d))
          × (Keeps (del_addr ntl b text)
              × Keeps (del_route ntl r.dest r.via r.dev)
              × Keeps (del_neigh ntl g.addr g.mac g.dev)
              × Keeps (del_fdb ntl d.mac d.underlay_addr d.dev))
          × (Keeps (rename ntl text) × Keeps (set_netns ntl text) × Keeps (set_status ntl status))
    operations-Keep b a r flags g d text status = (
      adds-Keep b a r flags g d,
      (
        del_addr-Keeps b text,
        del_route-Keeps r.dest r.via r.dev,
        del_neigh-Keeps g.addr g.mac g.dev,
        del_fdb-Keeps d.mac d.underlay_addr d.dev,
      ),
      setters-Keep text text status,
    )
