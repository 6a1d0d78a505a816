-- ===== src/Registry/Lookup.antt =====
-- Looking up a part of a cluster, a node or a namespace after it was added or deleted.
use ohno.Common.{
  ℕ, ◌≡◌, ◌≢◌, refl, ap, Option, none, some, [], ◌∷◌, arith, ◌^◌, ◌<◌, Bool-cases, inl, inr,
  if◌then◌else◌, All,
}
use ohno.Common.Bytes.{Bytes, empty_ne, eqb, eqb_iff, eqb_refl, eqb_ne}
use ohno.Common.Exec.{ok}
use ohno.Net.Boost.{Boost, BoostLaws, cidr_text}
use ohno.Net.Addr.Parsed.{new-cidr_text, text_of_parsed}
use ohno.Ipam.Allocate.{cidr_text-IsItem}
use ohno.Registry.{
  Map, find, is_some, emplace, erase, add_node, del_node, get_node, Netns, add_nic, del_nic,
  get_nic, Node, add_netns, del_netns, get_netns, set_underlay_addr, get_underlay_addr, is_reserved,
  addr_text, set_name, set_underlay_dev,
}

module _ {ℓ} {A : Type ℓ} where
  -- The one that was there, or the new one.
  abbrev pub first_or : Option A → A → A
  first_or none a = a
  first_or (some b) a = b

  pub emplace-All {κ} :
      (P : Bytes × A → Type κ) (k : Bytes) (a : A) (m : Map A)
      → All P m
      → P (k, a)
      → All P (emplace k a m)
  unfolding emplace is_some
  emplace-All P k a m h p = elim (Bool-cases (is_some (find k m))) [
    | inl e ↦ rw e h
    | inr e ↦ rw e (p, h)
  ]

  pub find-emplace_self :
      (k : Bytes) (a : A) (m : Map A) → find k (emplace k a m) ≡ some (first_or (find k m) a)
  unfolding emplace is_some find
  find-emplace_self k a m = go (find k m) refl
    where
      go :
          (o : Option A)
          → find k m ≡ o
          → find k (if is_some o then m else (k, a) ∷ m) ≡ some (first_or o a)
      go none e = rw (eqb_refl k) refl
      go (some b) e = e

  pub find-emplace_ne :
      (k j : Bytes) (a : A) (m : Map A) → k ≢ j → find j (emplace k a m) ≡ find j m
  unfolding emplace is_some find
  find-emplace_ne k j a m ne = elim (Bool-cases (is_some (find k m))) [
    | inl e ↦ rw e refl
    | inr e ↦ rw (e, eqb_ne k j ne) refl
  ]

  pub find-erase_self : (k : Bytes) (m : Map A) → find k (erase k m) ≡ none
  unfolding erase find
  find-erase_self k [] = refl
  find-erase_self k ((j, a) ∷ m) = elim (Bool-cases (eqb j k)) [
    | inl e ↦ rw e (find-erase_self k m)
    | inr e ↦ rw (e, e) (find-erase_self k m)
  ]

  pub find-erase_ne : (k j : Bytes) (m : Map A) → k ≢ j → find j (erase k m) ≡ find j m
  unfolding erase find
  find-erase_ne k j [] ne = refl
  find-erase_ne k j ((i, a) ∷ m) ne =
      ground (arith, find-erase_ne k j m ne, eqb_iff i k, eqb_iff i j)

module _ {A : Type 0} where
  pub get_node-find : (k : Bytes) (m : Map A) → k ≢ [] → get_node k m ≡ (ok (find k m), m)
  unfolding get_node
  get_node-find k m h = rw (empty_ne k h) refl

  pub get_netns-find : (k : Bytes) (n : Node A) → k ≢ [] → get_netns k n ≡ (ok (find k n.netns), n)
  unfolding get_netns
  get_netns-find k n h = rw (empty_ne k h) refl

  pub add_netns-new :
      (k : Bytes) (a : A) (n : Node A)
      → k ≢ []
      → find k n.netns ≡ none
      → add_netns k a n ≡ (ok tt, record n { netns = (k, a) ∷ n.netns })
  unfolding add_netns emplace is_some
  add_netns-new k a n h e = simp (empty_ne k h, e)

  -- For a name that is not empty, of the nodes of a cluster: after `addNode` the name is found, with
  -- the node that had it before if there was one; after `delNode` it is not found; the lookup of
  -- every other name is unchanged.
  get_node_lem :
      (k j : Bytes) (a : A) (m : Map A)
      → k ≢ []
      → j ≢ []
      → k ≢ j
      → ((get_node k (add_node k a m).1).0 ≡ ok (some (first_or (find k m) a)))
        × ((get_node j (add_node k a m).1).0 ≡ (get_node j m).0)
        × ((get_node k (del_node k m).1).0 ≡ ok none)
        × ((get_node j (del_node k m).1).0 ≡ (get_node j m).0)
  unfolding get_node add_node del_node
  get_node_lem k j a m hk hj ne =
      rw (empty_ne k hk, empty_ne j hj)
        (
          ap ok (find-emplace_self k a m),
          ap ok (find-emplace_ne k j a m ne),
          ap ok (find-erase_self k m),
          ap ok (find-erase_ne k j m ne),
        )

  -- For a name that is not empty, of the namespaces of a node: after `addNetns` the name is found,
  -- with the namespace that had it before if there was one; after `delNetns` it is not found; the
  -- lookup of every other name is unchanged.
  get_netns_lem :
      (k j : Bytes) (a : A) (n : Node A)
      → k ≢ []
      → j ≢ []
      → k ≢ j
      → ((get_netns k (add_netns k a n).1).0 ≡ ok (some (first_or (find k n.netns) a)))
        × ((get_netns j (add_netns k a n).1).0 ≡ (get_netns j n).0)
        × ((get_netns k (del_netns k n).1).0 ≡ ok none)
        × ((get_netns j (del_netns k n).1).0 ≡ (get_netns j n).0)
  unfolding get_netns add_netns del_netns
  get_netns_lem k j a n hk hj ne =
      rw (empty_ne k hk, empty_ne j hj)
        (
          ap ok (find-emplace_self k a n.netns),
          ap ok (find-emplace_ne k j a n.netns ne),
          ap ok (find-erase_self k n.netns),
          ap ok (find-erase_ne k j n.netns ne),
        )

  -- For an interface whose name is not empty: after `addNic` the name is found in the namespace, with
  -- the interface that had it before if there was one; after `delNic` it is not found; the lookup of
  -- every other name is unchanged.
  get_nic_lem :
      (get_name : A → Bytes) (j : Bytes) (a : A) (n : Netns A)
      → get_name a ≢ []
      → j ≢ []
      → get_name a ≢ j
      → (let k = get_name a in
          ((get_nic k (add_nic get_name a n).1).0 ≡ ok (some (first_or (find k n.nic) a)))
          × ((get_nic j (add_nic get_name a n).1).0 ≡ (get_nic j n).0)
          × ((get_nic k (del_nic k n).1).0 ≡ ok none)
          × ((get_nic j (del_nic k n).1).0 ≡ (get_nic j n).0))
  unfolding get_nic add_nic del_nic
  get_nic_lem get_name j a n hk hj ne =
      rw (empty_ne (get_name a) hk, empty_ne j hj)
        (
          ap ok (find-emplace_self (get_name a) a n.nic),
          ap ok (find-emplace_ne (get_name a) j a n.nic ne),
          ap ok (find-erase_self (get_name a) n.nic),
          ap ok (find-erase_ne (get_name a) j n.nic ne),
        )

  named_kept :
      (k : Bytes) (n : Node A)
      → k ≢ []
      → ((set_name k n).1.name ≡ k) × ((set_underlay_dev k n).1.underlay_dev ≡ k)
  unfolding set_name set_underlay_dev
  named_kept k n h = rw (empty_ne k h) (refl, refl)

  -- For a 32-bit address and a prefix below 2 ^ 31: `getUnderlayAddr` after `setUnderlayAddr` of a CIDR
  -- text gives that text.
  get_underlay_addr-set_underlay_addr :
      (b : Boost) (laws : BoostLaws b) (a p : ℕ) (n : Node A)
      → a < 2 ^ 32
      → p < 2 ^ 31
      → (get_underlay_addr b (set_underlay_addr b (cidr_text a p) n).1).0 ≡ ok (cidr_text a p)
  unfolding get_underlay_addr set_underlay_addr addr_text is_reserved
  get_underlay_addr-set_underlay_addr b laws a p n ha hp =
      rw (empty_ne (cidr_text a p) (cidr_text-IsItem a p).0, new-cidr_text b laws a p ha hp)
        (text_of_parsed b laws a p ha)
