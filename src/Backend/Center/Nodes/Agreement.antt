-- ===== src/Backend/Center/Nodes/Agreement.antt =====
-- src/backend/center.cc: asking for one node and asking for all agree.
use mathlib.Core.List.{append-ne-nil_of_right_ne-nil, cons-ne-nil}
use ohno.Common.{
  ◌≡◌, ◌≢◌, ◌⊎◌, refl, sym, ◌∙◌, subst, false, List, [], ◌∷◌, ◌++◌, All, some, none, inl, inr,
  Bool-cases,
}
use ohno.Common.Bytes.{Bytes, codes, empty_ne, eqb, eqb_iff, eqb_refl, eqb_sound, eqb_ne}
use ohno.Common.Exec.{ok, fault, assertion}
use ohno.Ipam.{NodeInfo}
use ohno.Registry.{Map, find}
use ohno.Registry.Lookup.{find-erase_ne}
use ohno.Backend.Center.Nodes.{
  Item, Api, Access, info_of, single_of, all_of, put, get_nodes, get_kubernetes_data,
  get_all_kubernetes_data, caught_items, items_of, get_http_response, or_else,
}

-- No item has the name.
abbrev pub IsUnnamed : Bytes → List Item → Type 0
IsUnnamed name = All (λ i. i.metadata.name ≢ name)

-- No two items have one name.
abbrev pub IsDistinct : List Item → Type 0
IsDistinct [] = Unit {0}
IsDistinct (i ∷ items) = IsUnnamed i.metadata.name items × IsDistinct items

find-put_ne :
    (name other : Bytes) (info : NodeInfo) (m : Map NodeInfo)
    → other ≢ name
    → find name (put other info m) ≡ find name m
unfolding put find
find-put_ne name other info m ne = rw (eqb_ne other name ne) (find-erase_ne other name m ne)

find-put_self :
    (name : Bytes) (info : NodeInfo) (m : Map NodeInfo) → find name (put name info m) ≡ some info
unfolding put find
find-put_self name info m = rw (eqb_refl name) refl

others :
    (name : Bytes) (items : List Item) (m : Map NodeInfo)
    → IsUnnamed name items
    → find name (all_of items m) ≡ find name m
unfolding all_of
others name [] m h = refl
others name (i ∷ items) m h =
    others name items (put i.metadata.name (info_of i) m) h.1
    ∙ find-put_ne name i.metadata.name (info_of i) m h.0

single-unnamed : (s : NodeInfo) (items : List Item) → IsUnnamed s.name items → single_of s items ≡ s
unfolding single_of
single-unnamed s [] h = refl
single-unnamed s (i ∷ items) h =
    rw (eqb_ne s.name i.metadata.name (λ e. h.0 (sym e))) (single-unnamed s items h.1)

differs : (a b : Bytes) → eqb a b ≡ false → a ≢ b
differs a b e q = cc (sym e ∙ (eqb_iff a b).1 q)

-- Of items with distinct names, the node that the loop for one node gives is the one that the loop for
-- all nodes keeps under its name.
pub all_of-single_of :
    (s : NodeInfo) (items : List Item) (m : Map NodeInfo)
    → IsDistinct items
    → find s.name m ≡ none
    → (find s.name (all_of items m) ≡ some (single_of s items))
      ⊎ ((find s.name (all_of items m) ≡ none) × (single_of s items ≡ s))
unfolding all_of single_of
all_of-single_of s [] m d h = inr (h, refl)
all_of-single_of s (i ∷ items) m d h = elim (Bool-cases (eqb s.name i.metadata.name)) [
  | inl e ↦
      (let same = eqb_sound s.name i.metadata.name e in
        inl (
          subst (λ n. find n (all_of items (put i.metadata.name (info_of i) m)) ≡ some (info_of i))
            (sym same)
            (others i.metadata.name items (put i.metadata.name (info_of i) m) d.0
              ∙ find-put_self i.metadata.name (info_of i) m)
          ∙ rw e refl))
  | inr e ↦ rw e (
      all_of-single_of s items (put i.metadata.name (info_of i) m) d.1 (
        find-put_ne s.name i.metadata.name (info_of i) m
          (λ q. differs s.name i.metadata.name e (sym q))
        ∙ h))
]

abbrev pub nothing_known : Bytes → NodeInfo
nothing_known name = record { name = name; internal_ip = []; pod_cidr = [] }

module _ {K : Type 0} (api : Api K) (self : Access) where
  -- Where the API server and the token are given and the same items are read, of which no two
  -- have one name: asking for a node by its name, which is not empty, and asking for all nodes
  -- both return; the map of all has under that name the node that was asked for, or it has none
  -- and the node has neither an address nor a subnet.
  pub get_kubernetes_data-agrees :
      (name : Bytes) (items : List Item) (k : K)
      → self.api_server ≢ []
      → self.token ≢ []
      → name ≢ []
      → IsDistinct items
      → (caught_items api self k).0 ≡ ok items
      → (info : NodeInfo) × (all : Map NodeInfo) × ((get_kubernetes_data api self name k).0
          ≡ ok info)
        × ((get_all_kubernetes_data api self k).0 ≡ ok all)
        × ((find name all ≡ some info) ⊎ ((find name all ≡ none) × (info ≡ nothing_known name)))
  unfolding get_kubernetes_data get_all_kubernetes_data get_nodes find
  get_kubernetes_data-agrees name items k ha ht hn d read = (
    single_of (nothing_known name) items,
    all_of items [],
    rw (empty_ne name hn, empty_ne self.api_server ha, empty_ne self.token ht, read) refl,
    rw (empty_ne self.api_server ha, empty_ne self.token ht, read) refl,
    all_of-single_of (nothing_known name) items [] d refl,
  )

  -- Without SSL every request for the nodes ends by a failed assertion, where the API server and the
  -- token are given.
  get_nodes-insecure :
      (k : K)
      → self.api_server ≢ []
      → self.token ≢ []
      → self.ssl ≡ false
      → (get_all_kubernetes_data api self k).0 ≡ fault assertion
  unfolding get_all_kubernetes_data get_nodes caught_items items_of get_http_response or_else
  get_nodes-insecure k ha ht off =
      let uri = self.api_server ++ codes "/api/v1/nodes" in
      let stopped : (get_http_response api self uri k).0 ≡ fault assertion =
        rw
          (
            empty_ne uri (
                append-ne-nil_of_right_ne-nil self.api_server
                  (cons-ne-nil b'/' (codes "api/v1/nodes"))),
            empty_ne self.api_server ha,
            empty_ne self.token ht,
            off,
          )
          refl in
      rw (empty_ne self.api_server ha, empty_ne self.token ht, stopped) refl
