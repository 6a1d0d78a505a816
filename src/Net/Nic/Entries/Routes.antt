-- ===== src/Net/Nic/Entries/Routes.antt =====
-- src/net/nic.cc: the routes that an interface object keeps, and those of the kernel.
use ohno.Common.{
  ◌≡◌, ◌≢◌, refl, ap, ◌∙◌, Bool, true, false, List, [], ◌∷◌, ◌++◌, if◌then◌else◌, All, All-append,
  Bool-cases, inl, inr,
}
use ohno.Common.Bytes.{Bytes}
use ohno.Common.Exec.{ok, Returns, pure, Returns-then, Returns-else, ◌>>◌}
use ohno.Net.Netlink.{Netlink, RouteNhFlags, Route}
use ohno.Net.Nic.{Nic, change}
use ohno.Net.Nic.Entries.{add_route}
use ohno.Net.Nic.Entries.Table.{Keeps, RouteContract, kernel-bind}

module _ {K : Type 0} {ntl : Netlink K} (c : RouteContract ntl) where
  -- Every route that the object keeps is one of the kernel's.
  abbrev pub Mirrored : Nic × K → Type 0
  Mirrored s = All (λ q. c.table s.1 q s.0.netns ≡ true) s.0.routes

  still :
      (k l : K) (netns : Bytes) (qs : List Route)
      → Keeps c.table k l
      → All (λ q. c.table k q netns ≡ true) qs
      → All (λ q. c.table l q netns ≡ true) qs
  still k l netns [] kept h = tt
  still k l netns (q ∷ qs) kept h = (kept q netns h.0, still k l netns qs kept h.1)

  -- The outcome of `addRoute`, with the table behind it.
  abbrev Added : Nic → Route → Bool → Nic × K → Type 0
  Added n r done s =
      Mirrored s
      × (s.0.routes ≡ (if done then n.routes ++ r ∷ [] else n.routes))
      × (done ≡ true → c.table s.1 r n.netns ≡ true)

  add_new :
      (n : Nic) (r : Route) (l : K)
      → Mirrored (n, l)
      → c.table l r n.netns ≡ true
      → Added n r true (record n { routes = n.routes ++ r ∷ [] }, l)
  add_new n r l kept there = (
    All-append (λ q. c.table l q n.netns ≡ true) n.routes (r ∷ []) kept (there, tt),
    refl,
    λ d. there,
  )

  add_not : (n : Nic) (r : Route) (l : K) → Mirrored (n, l) → Added n r false (n, l)
  add_not n r l kept = (kept, refl, λ d. cc)

  -- The end of `addRoute` when the kernel has been told.
  told :
      (n : Nic) (r : Route) (l : K) (done : Bool)
      → Mirrored (n, l)
      → (done ≡ true → c.table l r n.netns ≡ true)
      → Returns
          ((if done
              then (do change (λ m. record m { routes = m.routes ++ r ∷ [] }); pure true)
              else pure false)
            (n, l))
          done
          (Added n r done)
  told n r l true kept there = record { result = refl; after = add_new n r l kept (there refl) }
  told n r l false kept there = record { result = refl; after = add_not n r l kept }

  -- For every kernel that answers for the routes with a next hop, has a route that it says to have
  -- added and takes none away when it is asked or told to add one: from a state in which it has all
  -- routes that the object keeps, and for a route whose next hop is not empty, `addRoute` returns; if
  -- it returns `true` the route is kept last and the kernel has it, otherwise the kept routes are as
  -- before; and the kernel still has all kept routes.
  pub add_route-Mirrored :
      (r : Route) (flags : RouteNhFlags) (n : Nic) (k : K)
      → r.via ≢ []
      → Mirrored (n, k)
      → (done : Bool) × Returns (add_route ntl r flags (n, k)) done (λ s.
          Mirrored s
          × (s.0.routes ≡ (if done then n.routes ++ r ∷ [] else n.routes))
          × (done ≡ true → c.table s.1 r n.netns ≡ true))
  unfolding add_route
  add_route-Mirrored r flags n k hop kept =
      let asked = c.asks r n.netns k hop in
      let l = (ntl.route_is_exist r.dest r.via r.dev n.netns k).1 in
      let (done, h) = c.adds r n.netns flags l hop in
      let u = (ntl.route_set_entry r.dest r.via true r.dev n.netns flags l).1 in
      let kept_l = still k l n.netns n.routes asked.after kept in
      elim (Bool-cases n.locked) [
        | inr dead ↦ (
          false,
          Returns-else n.locked _ _ (n, k) dead
              (record { result = refl; after = add_not n r k kept }),
        )
        | inl alive ↦ elim (Bool-cases (c.table k r n.netns)) [
          | inl there ↦ (
            true,
            Returns-then n.locked _ _ (n, k) alive
                (kernel-bind (ntl.route_is_exist r.dest r.via r.dev n.netns) _ n k
                  (asked.result ∙ ap ok there)
                  (record {
                    result = refl;
                    after = add_new n r l kept_l (asked.after r n.netns there);
                  })),
          )
          | inr new ↦ (
            done,
            Returns-then n.locked _ _ (n, k) alive
                (kernel-bind (ntl.route_is_exist r.dest r.via r.dev n.netns) _ n k
                  (asked.result ∙ ap ok new)
                  (kernel-bind (ntl.route_set_entry r.dest r.via true r.dev n.netns flags) _ n l
                    h.result
                    (told n r u done (still l u n.netns n.routes h.after.0 kept_l) h.after.1))),
          )
        ]
      ]
