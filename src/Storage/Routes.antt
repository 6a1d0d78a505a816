-- ===== src/Storage/Routes.antt =====
-- Routes and tunnel end points: values of several parts between dashes.
use mathlib.Core.List.{append-ne-nil_of_right_ne-nil, cons-ne-nil}
use ohno.Common.{
  ◌≡◌, refl, sym, ap, ◌∙◌, subst, true, List, [], ◌∷◌, ◌++◌, arith, All, All-append, append_assoc,
}
use ohno.Common.Bytes.{Bytes, empty_ne}
use ohno.Common.Exec.{ok, fault, assertion, Returns, Returns-bind, Returns-fault, ◌>>=◌}
use ohno.Helper.{split}
use ohno.Helper.Split.{join, Lacks, split-join}
use ohno.Etcd.Words.{IsItem, IsItemChar}
use ohno.Etcd.Client.{
  EtcdClient, EtcdContract, Items, update, update_self, At, get-At, list-At, append-At, put-At,
}
use ohno.Net.Netlink.{Route}
use ohno.Storage.{
  separator, get_route_value, get_vtep_value, routes_of, route_of, vtep_of, add_route,
  get_all_routes, add_vtep, get_vtep,
}
use ohno.Storage.Keys.{route, vtep, key_of, key_of-IsKey, IsNamed}

-- A part of a value: not empty, and no dash, comma or character that the shell changes.
abbrev pub IsPart : Bytes → Type 0
IsPart x = IsItem x × Lacks separator x

pub record IsRoute (r : Route) : Type 0 where
  pub dest_part : IsPart r.dest
  pub via_part : IsPart r.via
  pub dev_part : IsPart r.dev

-- The destination is empty for a default route.
abbrev pub HasItems : Route → Type 0
HasItems r = All IsItemChar r.dest × IsItem r.via × IsItem r.dev

abbrev pub value_of : Route → Bytes
value_of r = get_route_value r.dest r.via r.dev

abbrev pub values : List Route → List Bytes
values [] = []
values (r ∷ rs) = value_of r ∷ values rs

values-append : (rs qs : List Route) → values (rs ++ qs) ≡ values rs ++ values qs
values-append [] qs = refl
values-append (r ∷ rs) qs = ap (λ t. value_of r ∷ t) (values-append rs qs)

join-IsItem : (x y : Bytes) → All IsItemChar x → IsItem y → IsItem (x ++ separator ∷ y)
join-IsItem x y hx hy = (
  append-ne-nil_of_right_ne-nil x (cons-ne-nil separator y),
  All-append IsItemChar x (separator ∷ y) hx ((refl, λ e. omega (arith, e)), hy.1),
)

value_of-IsItem : (r : Route) → HasItems r → IsItem (value_of r)
unfolding get_route_value
value_of-IsItem r h =
    subst IsItem (simp append_assoc)
      (join-IsItem r.dest (r.via ++ separator ∷ r.dev) h.0 (join-IsItem r.via r.dev h.1.1 h.2))

split-value_of :
    (r : Route) → IsRoute r → split (value_of r) separator ≡ r.dest ∷ r.via ∷ r.dev ∷ []
unfolding get_route_value join
split-value_of r h =
    let parts = r.dest ∷ r.via ∷ r.dev ∷ [] in
    let spelled : value_of r ≡ join parts separator = simp append_assoc in
    ap (λ s. split s separator) spelled
    ∙ split-join separator parts (h.dest_part.1, (h.via_part.1, (h.dev_part.1, tt))) h.dev_part.0.0

-- The routes that values were made of are read back in their order.
pub routes_of-values : (rs : List Route) → All IsRoute rs → routes_of (values rs) ≡ ok rs
unfolding routes_of route_of
routes_of-values [] h = refl
routes_of-values (r ∷ rs) h = rw (split-value_of r h.0, routes_of-values rs h.1) refl

-- The same route by a device whose name holds a dash.
abbrev pub dashed : Route → Bytes → Bytes → Route
dashed r x y = record { dest = r.dest; via = r.via; dev = x ++ separator ∷ y }

split-dashed :
    (r : Route) (x y : Bytes)
    → IsRoute r
    → IsPart x
    → IsPart y
    → split (value_of (dashed r x y)) separator ≡ r.dest ∷ r.via ∷ x ∷ y ∷ []
unfolding get_route_value join
split-dashed r x y h hx hy =
    let parts = r.dest ∷ r.via ∷ x ∷ y ∷ [] in
    let spelled : value_of (dashed r x y) ≡ join parts separator = simp append_assoc in
    ap (λ s. split s separator) spelled
    ∙ split-join separator parts (h.dest_part.1, (h.via_part.1, (hx.1, (hy.1, tt)))) hy.0.0

routes_of-dashed :
    (rs : List Route) (r : Route) (x y : Bytes)
    → All IsRoute rs
    → IsRoute r
    → IsPart x
    → IsPart y
    → routes_of (values rs ++ value_of (dashed r x y) ∷ []) ≡ fault assertion
unfolding routes_of route_of
routes_of-dashed [] r x y hs h hx hy = rw (split-dashed r x y h hx hy) refl
routes_of-dashed (q ∷ qs) r x y hs h hx hy =
    rw (split-value_of q hs.0, routes_of-dashed qs r x y hs.1 h hx hy) refl

module _ {S : Type 0} {c : EtcdClient S} (k : EtcdContract c) (node pod nic : Bytes)
    (named : IsNamed (route node pod nic)) where
  pub add_route-At :
      (r : Route) (f : Items) (s : S)
      → HasItems r
      → At k f s
      → Returns (add_route c node pod nic r s) true (
          At k (
            update f
              (key_of (route node pod nic))
              (f (key_of (route node pod nic)) ++ value_of r ∷ [])))
  unfolding add_route
  add_route-At r f s h at =
      rw
        (
          empty_ne node named.0.0,
          empty_ne pod named.1.0,
          empty_ne nic named.2.0,
          empty_ne r.via h.1.0,
          empty_ne r.dev h.2.0,
        )
        (append-At k (key_of (route node pod nic)) (value_of r) f s
          (key_of-IsKey (route node pod nic) named) (value_of-IsItem r h) at)

  get_all_routes-At :
      (rs : List Route) (f : Items) (s : S)
      → All IsRoute rs
      → f (key_of (route node pod nic)) ≡ values rs
      → At k f s
      → Returns (get_all_routes c node pod nic s) rs (At k f)
  unfolding get_all_routes
  get_all_routes-At rs f s h kept at =
      rw (empty_ne node named.0.0, empty_ne pod named.1.0, empty_ne nic named.2.0)
        (Returns-bind (c.list (key_of (route node pod nic))) _ s
          (list-At k (key_of (route node pod nic)) f s (key_of-IsKey (route node pod nic) named) at)
          (λ t q. rw (kept, routes_of-values rs h) (record { result = refl; after = q })))

  aborts :
      (f : Items) (s : S)
      → routes_of (f (key_of (route node pod nic))) ≡ fault assertion
      → At k f s
      → (get_all_routes c node pod nic s).0 ≡ fault assertion
  unfolding get_all_routes
  aborts f s bad at =
      rw (empty_ne node named.0.0, empty_ne pod named.1.0, empty_ne nic named.2.0)
        (Returns-fault (c.list (key_of (route node pod nic))) _ s
          (list-At k (key_of (route node pod nic)) f s (key_of-IsKey (route node pod nic) named) at)
          (λ t q. bad))

  -- While ETCD answers and the parts of the key are plain words without a slash or a comma: if the
  -- slot holds the values of routes, `getAllRoutes` after `addRoute` gives these routes in their
  -- order and then the new one, and no other slot is written; for routes whose parts are not empty,
  -- hold no dash and no comma, and are plain words.
  pub get_all_routes-add_route :
      (rs : List Route) (r : Route) (f : Items) (s : S)
      → All IsRoute rs
      → IsRoute r
      → f (key_of (route node pod nic)) ≡ values rs
      → At k f s
      → Returns
          ((add_route c node pod nic r >>= λ _. get_all_routes c node pod nic) s)
          (rs ++ r ∷ [])
          (At k (update f (key_of (route node pod nic)) (values (rs ++ r ∷ []))))
  get_all_routes-add_route rs r f s hs h kept at =
      let a = key_of (route node pod nic) in
      let longer : f a ++ value_of r ∷ [] ≡ values (rs ++ r ∷ []) =
        ap (λ xs. xs ++ value_of r ∷ []) kept ∙ sym (values-append rs (r ∷ [])) in
      Returns-bind (add_route c node pod nic r) _ s
        (add_route-At r f s (h.dest_part.0.1, h.via_part.0, h.dev_part.0) at)
        (λ t q.
          get_all_routes-At (rs ++ r ∷ []) (update f a (values (rs ++ r ∷ []))) t
            (All-append IsRoute rs (r ∷ []) hs (h, tt)) (update_self f a _)
            (subst (λ xs. At k (update f a xs) t) longer q))

  -- While ETCD answers and the parts of the key are plain words without a slash or a comma: if the
  -- slot holds the values of routes and the parts are plain words, `addRoute` accepts a route whose
  -- device name is two such parts with a dash between them, and `getAllRoutes` of the slot then
  -- aborts on its assertion.
  pub get_all_routes-dashed :
      (rs : List Route) (r : Route) (x y : Bytes) (f : Items) (s : S)
      → All IsRoute rs
      → IsRoute r
      → IsPart x
      → IsPart y
      → f (key_of (route node pod nic)) ≡ values rs
      → At k f s
      → (let added = add_route c node pod nic (dashed r x y) s in
          (added.0 ≡ ok true) × ((get_all_routes c node pod nic added.1).0 ≡ fault assertion))
  get_all_routes-dashed rs r x y f s hs h hx hy kept at =
      let a = key_of (route node pod nic) in
      let d = dashed r x y in
      let added =
        add_route-At d f s (h.dest_part.0.1, h.via_part.0, join-IsItem x y hx.0.1 hy.0) at in
      (
        added.result,
        aborts (update f a (f a ++ value_of d ∷ [])) _
            (ap routes_of (update_self f a _ ∙ ap (λ xs. xs ++ value_of d ∷ []) kept)
              ∙ routes_of-dashed rs r x y hs h hx hy)
            added.after,
      )

-- A tunnel end point.
module _ {S : Type 0} {c : EtcdClient S} (k : EtcdContract c) (node : Bytes)
    (named : IsNamed (vtep node)) where
  add_vtep-At :
      (addr mac : Bytes) (f : Items) (s : S)
      → IsPart addr
      → IsPart mac
      → At k f s
      → Returns
          (add_vtep c node addr mac s)
          true
          (At k (update f (key_of (vtep node)) (get_vtep_value addr mac ∷ [])))
  unfolding add_vtep get_vtep_value
  add_vtep-At addr mac f s ha hm at =
      rw (empty_ne node named.0, empty_ne addr ha.0.0, empty_ne mac hm.0.0)
        (put-At k (key_of (vtep node)) (get_vtep_value addr mac) f s
          (key_of-IsKey (vtep node) named) (join-IsItem addr mac ha.0.1 hm.0) at)

  split-vtep :
      (addr mac : Bytes)
      → IsPart addr
      → IsPart mac
      → split (join (get_vtep_value addr mac ∷ []) b',') separator ≡ addr ∷ mac ∷ []
  unfolding get_vtep_value join
  split-vtep addr mac ha hm = split-join separator (addr ∷ mac ∷ []) (ha.1, (hm.1, tt)) hm.0.0

  get_vtep-At :
      (addr mac : Bytes) (f : Items) (s : S)
      → IsPart addr
      → IsPart mac
      → f (key_of (vtep node)) ≡ get_vtep_value addr mac ∷ []
      → At k f s
      → Returns (get_vtep c node s) (addr, mac) (At k f)
  unfolding get_vtep vtep_of
  get_vtep-At addr mac f s ha hm kept at = rw (empty_ne node named.0) (
      Returns-bind (c.get (key_of (vtep node))) _ s
        (get-At k (key_of (vtep node)) f s (key_of-IsKey (vtep node) named) at)
        (λ t q. rw (kept, split-vtep addr mac ha hm) (record { result = refl; after = q })))

  -- While ETCD answers and the node's name is a plain word without a slash or a comma: `getVtep`
  -- after `addVtep` gives the address and the MAC address that were stored, if both are plain
  -- words, not empty, without a dash or a comma; only the node's slot is written.
  pub get_vtep-add_vtep :
      (addr mac : Bytes) (f : Items) (s : S)
      → IsPart addr
      → IsPart mac
      → At k f s
      → Returns
          ((add_vtep c node addr mac >>= λ _. get_vtep c node) s)
          (addr, mac)
          (At k (update f (key_of (vtep node)) (get_vtep_value addr mac ∷ [])))
  get_vtep-add_vtep addr mac f s ha hm at =
      Returns-bind (add_vtep c node addr mac) _ s (add_vtep-At addr mac f s ha hm at)
        (λ t q. get_vtep-At addr mac _ t ha hm (update_self f (key_of (vtep node)) _) q)
