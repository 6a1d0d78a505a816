-- ===== src/Net/Nic/Entries.antt =====
-- src/net/nic.cc: addresses, routes, neighbours and forwarding entries of an interface. Each call asks
-- the kernel whether the entry exists before it sets or deletes it.
pub mod Failures
pub mod Takes
pub mod Table
pub mod Routes
use ohno.Common.{
  ℕ, ◌≡◌, ◌≢◌, refl, Bool, true, false, not, ◌&&◌, Option, none, some, List, [], ◌∷◌, ◌++◌,
  if◌then◌else◌,
}
use ohno.Common.Bytes.{Bytes, empty, empty_ne, eqb}
use ohno.Common.Exec.{Exec, Outcome, ok, fault, and_then, pure, lift, check, ◌>>=◌, ◌>>◌}
use ohno.Net.Boost.{Boost}
use ohno.Net.Addr.{Addr, get_addr_cidr}
use ohno.Net.Netlink.{Netlink, RouteNhFlags, Route, Neigh, Fdb}
use ohno.Net.Nic.{Nic, this, kernel, change}

abbrev pub same_route : Bytes → Bytes → Bytes → Route → Bool
same_route dst via dev r = eqb r.dest dst && eqb r.via via && eqb r.dev dev

abbrev same_neigh : Bytes → Bytes → Bytes → Neigh → Bool
same_neigh addr mac dev n = eqb n.addr addr && eqb n.mac mac && eqb n.dev dev

-- The device is not compared.
abbrev same_fdb : Bytes → Bytes → Fdb → Bool
same_fdb addr mac f = eqb f.mac mac && eqb f.underlay_addr addr

-- `erase(remove_if(begin, end, p), end)`
unfoldable pub remove_if {ℓ} : {A : Type ℓ} → (A → Bool) → List A → List A
remove_if p [] = []
remove_if p (x ∷ xs) = let rest = remove_if p xs in if p x then rest else x ∷ rest

find_if {ℓ} : {A : Type ℓ} → (A → Bool) → List A → Option A
find_if p [] = none
find_if p (x ∷ xs) = let rest = find_if p xs in if p x then some x else rest

module _ (b : Boost) where
  -- The same for addresses, whose text may throw.
  remove_addr : Bytes → List Addr → Outcome (List Addr)
  remove_addr cidr [] = ok []
  remove_addr cidr (a ∷ rest_addrs) = and_then (get_addr_cidr b a) (λ text.
      and_then (remove_addr cidr rest_addrs)
        (λ rest. ok (if eqb text cidr then rest else a ∷ rest)))

  find_addr : Bytes → List Addr → Outcome (Option Addr)
  find_addr cidr [] = ok none
  find_addr cidr (a ∷ rest_addrs) =
      and_then (get_addr_cidr b a)
        (λ text. if eqb text cidr then ok (some a) else find_addr cidr rest_addrs)

  front : List Addr → Option Addr
  front [] = none
  front (a ∷ rest_addrs) = some a

  pub get_addr : Bytes → Nic → Outcome (Option Addr)
  unfolding front find_addr
  get_addr cidr n = if empty cidr then ok (front n.addrs) else find_addr cidr n.addrs

pub get_route : Bytes → Bytes → Bytes → Nic → Exec (Unit {0}) (Option Route)
unfolding find_if
get_route dst via dev n = do
  check (not (empty dst))
  check (not (empty via))
  check (not (empty dev))
  pure (find_if (same_route dst via dev) n.routes)

-- Without entries, nothing is found.
module _ (b : Boost) (n : Nic) where
  nothing_found :
      (d v x : Bytes)
      → d ≢ []
      → v ≢ []
      → x ≢ []
      → n.addrs ≡ []
      → n.routes ≡ []
      → (get_addr b d n ≡ ok none) × ((get_route d v x n tt).0 ≡ ok none)
  unfolding get_addr get_route
  nothing_found d v x hd hv hx ha hr =
      rw (empty_ne d hd, empty_ne v hv, empty_ne x hx, ha, hr) (refl, refl)

module _ {K : Type 0} (ntl : Netlink K) where
  pub add_addr : Boost → Addr → Exec (Nic × K) Bool
  add_addr b addr = do
    n ← this
    text ← lift (get_addr_cidr b addr)
    if n.locked
        then (do
          exists ← kernel (ntl.address_is_exist n.name text n.netns)
          done ←
              (if exists
                then pure true
                else kernel (ntl.address_set_entry n.name text true n.netns))
          if done
              then (do change (λ m. record m { addrs = m.addrs ++ addr ∷ [] }); pure true)
              else pure false)
        else pure false

  pub del_addr : Boost → Bytes → Exec (Nic × K) Bool
  unfolding remove_addr
  del_addr b cidr = do
    check (not (empty cidr))
    n ← this
    if n.locked
        then (do
          exists ← kernel (ntl.address_is_exist n.name cidr n.netns)
          if exists
              then (do
                done ← kernel (ntl.address_set_entry n.name cidr false n.netns)
                if done
                    then (do
                      rest ← lift (remove_addr b cidr n.addrs)
                      change (λ m. record m { addrs = rest })
                      pure true)
                    else pure false)
              else pure true)
        else pure false

  pub add_route : Route → RouteNhFlags → Exec (Nic × K) Bool
  add_route route nhflags = do
    n ← this
    if n.locked
        then (do
          exists ← kernel (ntl.route_is_exist route.dest route.via route.dev n.netns)
          done ←
              (if exists
                then pure true
                else kernel
                    (ntl.route_set_entry route.dest route.via true route.dev n.netns nhflags))
          if done
              then (do change (λ m. record m { routes = m.routes ++ route ∷ [] }); pure true)
              else pure false)
        else pure false

  pub del_route : Bytes → Bytes → Bytes → Exec (Nic × K) Bool
  del_route dst via dev = do
    check (not (empty via))
    n ← this
    if n.locked
        then (do
          exists ← kernel (ntl.route_is_exist dst via dev n.netns)
          if exists
              then (do
                done ← kernel (ntl.route_set_entry dst via false dev n.netns RouteNhFlags.none)
                if done
                    then (do
                      change
                          (λ m. record m { routes = remove_if (same_route dst via dev) m.routes })
                      pure true)
                    else pure false)
              else pure true)
        else pure false

  pub add_neigh : Neigh → Exec (Nic × K) Bool
  add_neigh neigh = do
    check (not (empty neigh.addr))
    check (not (empty neigh.mac))
    n ← this
    if n.locked
        then (do
          exists ← kernel (ntl.neigh_is_exist neigh.addr neigh.dev n.netns)
          done ←
              (if exists
                then pure true
                else kernel (ntl.neigh_set_entry neigh.addr neigh.mac true neigh.dev n.netns))
          if done
              then (do change (λ m. record m { neighs = m.neighs ++ neigh ∷ [] }); pure true)
              else pure false)
        else pure false

  pub del_neigh : Bytes → Bytes → Bytes → Exec (Nic × K) Bool
  del_neigh addr mac dev = do
    check (not (empty addr))
    check (not (empty mac))
    n ← this
    if n.locked
        then (do
          exists ← kernel (ntl.neigh_is_exist addr dev n.netns)
          if exists
              then (do
                done ← kernel (ntl.neigh_set_entry addr mac false dev n.netns)
                if done
                    then (do
                      change
                          (λ m. record m { neighs = remove_if (same_neigh addr mac dev) m.neighs })
                      pure true)
                    else pure false)
              else pure true)
        else pure false

  pub add_fdb : Fdb → Exec (Nic × K) Bool
  add_fdb fdb = do
    check (not (empty fdb.mac))
    check (not (empty fdb.underlay_addr))
    check (not (empty fdb.dev))
    n ← this
    if n.locked
        then (do
          exists ← kernel (ntl.fdb_is_exist fdb.mac fdb.underlay_addr fdb.dev n.netns)
          done ←
              (if exists
                then pure true
                else kernel (ntl.fdb_set_entry fdb.mac fdb.underlay_addr fdb.dev true n.netns))
          if done
              then (do change (λ m. record m { fdbs = m.fdbs ++ fdb ∷ [] }); pure true)
              else pure false)
        else pure false

  pub del_fdb : Bytes → Bytes → Bytes → Exec (Nic × K) Bool
  del_fdb addr mac dev = do
    check (not (empty addr))
    check (not (empty mac))
    check (not (empty dev))
    n ← this
    if n.locked
        then (do
          exists ← kernel (ntl.fdb_is_exist mac addr dev n.netns)
          if exists
              then (do
                done ← kernel (ntl.fdb_set_entry mac addr dev false n.netns)
                if done
                    then (do
                      change (λ m. record m { fdbs = remove_if (same_fdb addr mac) m.fdbs })
                      pure true)
                    else pure false)
              else pure true)
        else pure false
