-- ===== src/Net/Nic.antt =====
-- src/net/nic.cc: a network interface object, and the calls of the kernel that it makes. `NetlinkIf`
-- is a parameter; a C++ object pointer that is not null is the object.
pub mod Entries
use ohno.Common.{
  ℕ, zero, suc, Bool, true, false, not, ◌||◌, ◌&&◌, Option, none, some, List, [], ◌∷◌, ◌++◌, ◌==◌,
  length, leb, if◌then◌else◌, refl, ◌≢◌, ◌↔◌, arith, ◌≡◌,
}
use ohno.Common.Bytes.{Bytes, codes, empty, empty_ne}
use ohno.Common.Exec.{Exec, Outcome, ok, fault, exception, pure, lift, check, and_then, ◌>>=◌, ◌>>◌}
use ohno.Helper.Split.{Lacks}
use ohno.Net.Boost.{Boost}
use ohno.Net.Addr.{Addr, get_addr_cidr}
use ohno.Net.Netlink.{Netlink, LinkStatus, up, RouteNhFlags, NicType, sys, user, Route, Neigh, Fdb}

-- `PATH_NAMESPACE`
abbrev pub path_namespace : Bytes
path_namespace = codes "/var/run/netns"

unfoldable pub starts_with : Bytes → Bytes → Bool
starts_with [] s = true
starts_with (c ∷ p) [] = false
starts_with (c ∷ p) (d ∷ s) = (c == d) && starts_with p s

-- `s.find(p) != npos`
pub has : Bytes → Bytes → Bool
unfolding starts_with
has p [] = starts_with p []
has p (c ∷ s) = starts_with p (c ∷ s) || has p s

pub starts_with-append : (p s : Bytes) → starts_with p (p ++ s) ≡ true
unfolding starts_with
starts_with-append [] s = refl
starts_with-append (c ∷ p) s = ground (arith, starts_with-append p s)

pub starts_with-head : (c d : ℕ) (p s : Bytes) → d ≢ c → starts_with (c ∷ p) (d ∷ s) ≡ false
unfolding starts_with
starts_with-head c d p s h = ground arith

-- A text is found inside every text that holds it.
pub has-inside : (p a s : Bytes) → has p (a ++ p ++ s) ≡ true
unfolding has starts_with
has-inside [] [] [] = refl
has-inside [] [] (c ∷ s) = refl
has-inside (c ∷ p) [] s = ground (arith, starts_with-append (c ∷ p) s)
has-inside p (c ∷ a) s = ground (arith, has-inside p a s)

-- A text of one character is found exactly where the character is.
pub has-Lacks : (d : ℕ) (s : Bytes) → (has (d ∷ []) s ≡ false) ↔ Lacks d s
unfolding has starts_with
has-Lacks d [] = ((λ e. tt), (λ h. refl))
has-Lacks d (c ∷ s) = ground (arith, has-Lacks d s)

unfoldable pub drop : ℕ → Bytes → Bytes
drop zero s = s
drop (suc n) [] = []
drop (suc n) (c ∷ s) = drop n s

-- `substr` throws when it starts behind the end.
unfoldable pub simple_netns : Bytes → Outcome Bytes
unfolding has starts_with drop
simple_netns netns =
    let start = suc (length path_namespace) in
    if has path_namespace netns
    then (if leb start (length netns) then ok (drop start netns) else fault exception)
    else ok netns

some_names : simple_netns (codes "/var/run/netns/blue") ≡ ok (codes "blue")
unfolding simple_netns
some_names = refl

-- `netlink_` is a weak pointer: `locked` says whether the object that it observes is alive. `index_` is
-- never read.
pub record Nic : Type 0 where
  pub locked : Bool
  pub type : NicType
  pub name : Bytes
  pub netns : Bytes
  pub status : LinkStatus
  pub addrs : List Addr
  pub routes : List Route
  pub neighs : List Neigh
  pub fdbs : List Fdb

module _ {K : Type 0} where
  -- The object, a call of the kernel, and a change of the object.
  abbrev pub this : Exec (Nic × K) Nic
  this s = (ok s.0, s)

  abbrev pub kernel {ℓ} : {A : Type ℓ} → Exec K A → Exec (Nic × K) A
  kernel m s = let r = m s.1 in (r.0, (s.0, r.1))

  abbrev pub change : (Nic → Nic) → Exec (Nic × K) (Unit {0})
  change g s = (ok tt, (g s.0, s.1))

-- The two loops of `cleanup`.
module _ {K : Type 0} (b : Boost) (ntl : Netlink K) where
  cleanup_routes : Bytes → List Route → Exec K (Unit {0})
  cleanup_routes netns [] = pure tt
  cleanup_routes netns (r ∷ rs) = do
    exists ← ntl.route_is_exist r.dest r.via r.dev netns
    _ ←
        (if exists
          then ntl.route_set_entry r.dest r.via false r.dev netns RouteNhFlags.none
          else pure true)
    cleanup_routes netns rs

  cleanup_addrs : Bytes → Bytes → List Addr → Exec K (Unit {0})
  cleanup_addrs name netns [] = pure tt
  cleanup_addrs name netns (a ∷ rest_addrs) = do
    text ← lift (get_addr_cidr b a)
    _ ← ntl.address_set_entry name text false netns
    cleanup_addrs name netns rest_addrs

  cleanup_user : NicType → Bytes → Bytes → List Addr → Exec K (Unit {0})
  cleanup_user sys name netns addrs = pure tt
  cleanup_user user name netns addrs = do
    cleanup_addrs name netns addrs
    _ ← ntl.link_destory name netns
    pure tt

  pub cleanup : Exec (Nic × K) (Unit {0})
  unfolding cleanup_routes cleanup_user cleanup_addrs
  cleanup = do
    n ← this
    if n.locked
        then (do
          kernel (cleanup_routes n.netns n.routes)
          kernel (cleanup_user n.type n.name n.netns n.addrs))
        else pure tt

module _ {K : Type 0} (ntl : Netlink K) where
  pub is_exist : Exec (Nic × K) Bool
  is_exist = do
    n ← this
    check (not (empty n.name))
    if n.locked then kernel (ntl.link_exist n.name n.netns) else pure false

  pub set_name : Bytes → Exec (Nic × K) (Unit {0})
  set_name name = do check (not (empty name)); change (λ n. record n { name = name })

  pub rename : Bytes → Exec (Nic × K) Bool
  unfolding set_name
  rename name = do
    n ← this
    if empty name
        then pure true
        else if n.locked
        then (do
          renamed ← kernel (ntl.link_rename n.name name n.netns)
          if renamed then (do set_name name; pure true) else pure false)
        else pure false

  pub set_netns : Bytes → Exec (Nic × K) Bool
  set_netns netns = do
    check (not (empty netns))
    n ← this
    if n.locked
        then (do
          simple ← lift (simple_netns netns)
          inside ← kernel (ntl.link_is_in_netns n.name simple)
          moved ← (if inside then pure true else kernel (ntl.link_to_netns n.name simple))
          if moved then (do change (λ m. record m { netns = simple }); pure true) else pure false)
        else pure false

  pub set_status : LinkStatus → Exec (Nic × K) Bool
  set_status status = do
    n ← this
    if n.locked
        then (do
          done ← kernel (ntl.link_set_status n.name status n.netns)
          if done then (do change (λ m. record m { status = status }); pure true) else pure false)
        else pure false

pub get_status : Nic → Bool
get_status n = elim n.status [ up ↦ true | _ ↦ false ]

-- An object whose `NetlinkIf` is gone asks the kernel nothing.
module _ {K : Type 0} (b : Boost) (ntl : Netlink K) where
  without_kernel :
      (n : Nic) (k : K)
      → n.locked ≡ false
      → n.name ≢ []
      → (cleanup b ntl (n, k) ≡ (ok tt, (n, k))) × (is_exist ntl (n, k) ≡ (ok false, (n, k)))
  unfolding cleanup is_exist
  without_kernel n k h named = rw (h, empty_ne n.name named) (refl, refl)

is_up : (n : Nic) → (get_status n ≡ true) ↔ (n.status ≡ up)
unfolding get_status
is_up n = ground arith
