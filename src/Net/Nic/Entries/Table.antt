-- ===== src/Net/Nic/Entries/Table.antt =====
-- The routes of the kernel, and how the calls of an interface object read and write them.
use ohno.Common.{◌≡◌, ◌≢◌, refl, sym, subst, Bool, true, ◌&&◌, [], if◌then◌else◌, arith}
use ohno.Common.Bytes.{Bytes, eqb, eqb_refl}
use ohno.Common.Exec.{Exec, ok, Returns, continue, ◌>>=◌}
use ohno.Net.Netlink.{Netlink, RouteNhFlags, Route}
use ohno.Net.Nic.{Nic, kernel}
use ohno.Net.Nic.Entries.{same_route}

-- Routes and namespaces: which of them the kernel has.
abbrev pub Table : Type 0
Table = Route → Bytes → Bool

-- One entry is written.
unfoldable pub enter : Table → Route → Bytes → Bool → Table
enter f r netns present q other =
    if same_route r.dest r.via r.dev q && eqb other netns then present else f q other

-- Every route that the kernel has, it still has.
abbrev pub Keeps : {K : Type 0} → (K → Table) → K → K → Type 0
Keeps table k l = (q : Route) (netns : Bytes) → table k q netns ≡ true → table l q netns ≡ true

-- What the kernel does with routes whose next hop is not empty: it tells whether it has one, after a
-- call that adds one and succeeds it has it, and neither call takes a route away.
pub record RouteContract {K : Type 0} (ntl : Netlink K) : Type 1 where
  pub table : K → Table
  pub asks :
      (r : Route) (netns : Bytes) (k : K)
      → r.via ≢ []
      → Returns (ntl.route_is_exist r.dest r.via r.dev netns k) (table k r netns) (Keeps table k)
  pub adds :
      (r : Route) (netns : Bytes) (flags : RouteNhFlags) (k : K)
      → r.via ≢ []
      → (done : Bool) × Returns
          (ntl.route_set_entry r.dest r.via true r.dev netns flags k)
          done
          (λ l. Keeps table k l × (done ≡ true → table l r netns ≡ true))

module _ {K : Type 0} {R : Nic × K → Type 0} where
  pub kernel-bind :
      {A B : Type 0} (m : Exec K A) (f : A → Exec (Nic × K) B) (n : Nic) (k : K) {a : A} {b : B}
      → (m k).0 ≡ ok a
      → Returns (f a (n, (m k).1)) b R
      → Returns ((kernel m >>= f) (n, k)) b R
  kernel-bind m f n k {a} {b} e h = subst (λ o. Returns (continue o f (n, (m k).1)) b R) (sym e) h

pub enter_self :
    (f : Table) (r : Route) (netns : Bytes) (present : Bool)
    → enter f r netns present r netns ≡ present
unfolding enter
enter_self f r netns present =
    rw (eqb_refl r.dest, eqb_refl r.via, eqb_refl r.dev, eqb_refl netns) refl

pub enter_keeps :
    (f : Table) (r q : Route) (netns other : Bytes)
    → f q other ≡ true
    → enter f r netns true q other ≡ true
unfolding enter
enter_keeps f r q netns other h = ground (arith, h)
