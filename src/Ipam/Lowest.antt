-- ===== src/Ipam/Lowest.antt =====
-- Which address `allocateIp` hands out, and when it has one.
use ohno.Common.{
  ℕ, zero, suc, ◌+◌, ◌-◌, ◌≤◌, ◌<◌, ◌≡◌, refl, ◌∙◌, subst, true, false, List, [], ◌∷◌, ◌++◌, Option,
  none, some, arith, length, Bool-cases, inl, inr, ◌⊎◌,
}
use ohno.Common.Bytes.{Bytes, contains, empty_ne}
use ohno.Common.Exec.{ok, Returns, Returns-bind, ◌>>=◌}
use ohno.Etcd.Words.{IsName, IsItem}
use ohno.Etcd.Client.{
  EtcdClient, EtcdContract, Items, update, update_self, without, At, del_value-At, list-At,
}
use ohno.Etcd.Values.{taken_back, length-without, contains-without_ne}
use ohno.Net.Boost.{Boost, BoostLaws, NetworkV4, cidr_text}
use ohno.Net.Subnet.Range.{IsPodCidr, size, size_two, generate_ip_injective}
use ohno.Ipam.{subnet_key, address_key, allocate_ip, release_ip, init, get_all_ip, no_value}
use ohno.Ipam.Keys.{address_key-IsKey}
use ohno.Ipam.Allocate.{candidate, first_free, answer, grant, allocate_ip-At, cidr_text-IsItem}

-- `h` is the first of the `n` host numbers from `i` on whose address is not taken.
abbrev pub IsFirst : NetworkV4 → ℕ → ℕ → List Bytes → ℕ → Type 0
IsFirst net n i taken h =
    (i ≤ h)
    × (h < i + n)
    × (contains taken (candidate net h) ≡ false)
    × ((j : ℕ) → i ≤ j → j < h → contains taken (candidate net j) ≡ true)

abbrev pub AllTaken : NetworkV4 → ℕ → ℕ → List Bytes → Type 0
AllTaken net n i taken = (j : ℕ) → i ≤ j → j < i + n → contains taken (candidate net j) ≡ true

at_or_above : (i j : ℕ) → i ≤ j → (j ≡ i) ⊎ (i + 1 ≤ j)
at_or_above i j h = omega arith

taken_from :
    (net : NetworkV4) (i m : ℕ) (taken : List Bytes)
    → contains taken (candidate net i) ≡ true
    → ((j : ℕ) → i + 1 ≤ j → j < m → contains taken (candidate net j) ≡ true)
    → (j : ℕ) → i ≤ j
    → j < m
    → contains taken (candidate net j) ≡ true
taken_from net i m taken used above j lo hi = elim (at_or_above i j lo) [
  | inl e ↦ rw e used
  | inr l ↦ above j l hi
]

pub first_free-cases :
    (net : NetworkV4) (n i : ℕ) (taken : List Bytes)
    → ((h : ℕ) × (first_free net n i taken ≡ some (candidate net h)) × IsFirst net n i taken h)
      ⊎ ((first_free net n i taken ≡ none) × AllTaken net n i taken)
unfolding first_free
first_free-cases net zero i taken = inr (refl, λ j lo hi. absurd (omega arith))
first_free-cases net (suc n) i taken = elim (Bool-cases (contains taken (candidate net i))) [
  | inr free ↦
      inl (i, rw free refl, (omega arith, omega arith, free, λ j lo hi. absurd (omega arith)))
  | inl used ↦ elim (first_free-cases net n (i + 1) taken) [
    | inl (h, e, (lo, hi, free, below)) ↦
        inl (h, rw used e, (omega arith, omega arith, free, taken_from net i h taken used below))
    | inr (e, full) ↦
        inr
          (rw used e, taken_from net i (i + suc n) taken used (λ j lo hi. full j lo (omega arith)))
  ]
]

-- An entry of the node's list, removed.
pub release_ip-At :
    {S : Type 0} {c : EtcdClient S} (k : EtcdContract c)
    → (node : Bytes) → IsName node
    → (ip : Bytes) (f : Items) (s : S) → IsItem ip
    → At k f s
    → Returns
        (release_ip c node ip s)
        true
        (At k (update f (address_key node) (without ip (f (address_key node)))))
unfolding release_ip
release_ip-At k node named ip f s item h =
    rw (empty_ne node named.0)
      (del_value-At k (address_key node) ip f s (address_key-IsKey node named) item h)

init_up :
    {S : Type 0} {c : EtcdClient S} (k : EtcdContract c) (s : S) → k.Up s → (init c s).0 ≡ ok true
unfolding init
init_up k s up = (k.test_up s up).result

some_value : (xs : List Bytes) (x : Bytes) → no_value (xs ++ x ∷ []) ≡ false
unfolding no_value
some_value [] x = refl
some_value (y ∷ xs) x = refl

get_all_ip-At :
    {S : Type 0} {c : EtcdClient S} (k : EtcdContract c) (node : Bytes)
    → IsName node
    → (xs : List Bytes) (x : Bytes) (f : Items) (s : S) → f (address_key node) ≡ xs ++ x ∷ []
    → At k f s
    → Returns (get_all_ip c node s) (true, xs ++ x ∷ []) (At k f)
unfolding get_all_ip
get_all_ip-At {c} k node named xs x f s held h = rw (empty_ne node named.0) (
    Returns-bind (c.list (address_key node)) _ s
      (list-At k (address_key node) f s (address_key-IsKey node named) h)
      (λ t q. rw (held, some_value xs x) (record { result = refl; after = q })))

module _ (b : Boost) (laws : BoostLaws b) (net : NetworkV4) (pod : IsPodCidr net) where
  -- Taken addresses are as many entries.
  pigeonhole :
      (n i : ℕ) (taken : List Bytes) → i + n ≤ size net → AllTaken net n i taken → n ≤ length taken
  pigeonhole zero i taken fits full = omega arith
  pigeonhole (suc n) i taken fits full =
      let first = candidate net i in
      let shorter = length-without first taken (full i (omega arith) (omega arith)) in
      let others : AllTaken net n (i + 1) (without first taken) = λ j lo hi.
        contains-without_ne first (candidate net j) taken (λ e.
          omega (arith, generate_ip_injective b laws net i j pod (omega arith) (omega arith) e))
        ∙ full j (omega arith) (omega arith) in
      omega (arith, shorter, pigeonhole n (i + 1) (without first taken) (omega arith) others)

  module _ {S : Type 0} {c : EtcdClient S} (k : EtcdContract c) (node : Bytes)
      (named : IsName node) where
    -- While ETCD answers, the node's name is a plain word and its stored subnet is a pod CIDR:
    -- `allocateIp` gives the address of the lowest host number, from 1 to the size less 2, that is
    -- not on the node's list and appends it to that list alone; or all of them are on the list, and
    -- it fails and writes nothing.
    pub allocate_ip-lowest :
        (f : Items) (s : S)
        → f (subnet_key node) ≡ cidr_text net.address net.prefix_length ∷ []
        → At k f s
        → ((h : ℕ) × IsFirst net (size net - 2) 1 (f (address_key node)) h
            × Returns
                (allocate_ip c b node s)
                (true, candidate net h)
                (At k (grant f node (some (candidate net h)))))
          ⊎ (AllTaken net (size net - 2) 1 (f (address_key node))
              × Returns (allocate_ip c b node s) (false, []) (At k f))
    allocate_ip-lowest f s own at =
        let taken = f (address_key node) in
        let called = allocate_ip-At k b laws node named net pod f s own at in
        let Result : Option Bytes → Type 0 =
          λ found. Returns (allocate_ip c b node s) (answer found) (At k (grant f node found)) in
        elim (first_free-cases net (size net - 2) 1 taken) [
          | inl (h, e, first) ↦ inl (h, first, subst Result e called)
          | inr (e, full) ↦ inr (full, subst Result e called)
        ]

    -- While ETCD answers, the node's name is a plain word and its stored subnet is a pod CIDR: as
    -- long as the node's list is shorter than the subnet's size less 2, `allocateIp` gives an
    -- address that is not on the list and appends it to that list alone.
    pub allocate_ip-succeeds :
        (f : Items) (s : S)
        → f (subnet_key node) ≡ cidr_text net.address net.prefix_length ∷ []
        → length (f (address_key node)) < size net - 2
        → At k f s
        → (h : ℕ) × (contains (f (address_key node)) (candidate net h) ≡ false)
          × Returns
              (allocate_ip c b node s)
              (true, candidate net h)
              (At k (grant f node (some (candidate net h))))
    allocate_ip-succeeds f s own room at = elim (allocate_ip-lowest f s own at) [
      | inl (h, first, called) ↦ (h, first.2, called)
      | inr (full, called) ↦ absurd (
          omega (
            arith,
            size_two net pod,
            pigeonhole (size net - 2) 1 (f (address_key node)) (omega (arith, size_two net pod))
                full,
          ))
    ]

    -- While ETCD answers, the node's name is a plain word, its stored subnet is a pod CIDR and its
    -- list is shorter than the size less 2: `releaseIp` of what `allocateIp` gave restores every
    -- list.
    pub release_ip-allocate_ip :
        (f : Items) (s : S)
        → f (subnet_key node) ≡ cidr_text net.address net.prefix_length ∷ []
        → length (f (address_key node)) < size net - 2
        → At k f s
        → Returns ((allocate_ip c b node >>= λ r. release_ip c node r.1) s) true (At k f)
    release_ip-allocate_ip f s own room at =
        let (h, fresh, called) = allocate_ip-succeeds f s own room at in
        Returns-bind (allocate_ip c b node) _ s called (λ t q.
          subst (λ g. Returns (release_ip c node (candidate net h) t) true (At k g))
            (taken_back f (address_key node) (candidate net h) fresh)
            (release_ip-At k node named (candidate net h) _ t
              (cidr_text-IsItem (net.address + h) net.prefix_length) q))

    -- While ETCD answers, the node's name is a plain word, its stored subnet is a pod CIDR and its
    -- list is shorter than the size less 2: `getAllIp` after `allocateIp` gives the addresses that
    -- were on the list and then one that was not.
    get_all_ip-allocate_ip :
        (f : Items) (s : S)
        → f (subnet_key node) ≡ cidr_text net.address net.prefix_length ∷ []
        → length (f (address_key node)) < size net - 2
        → At k f s
        → (h : ℕ) × (contains (f (address_key node)) (candidate net h) ≡ false)
          × Returns
              ((allocate_ip c b node >>= λ r. get_all_ip c node) s)
              (true, f (address_key node) ++ candidate net h ∷ [])
              (At k (grant f node (some (candidate net h))))
    get_all_ip-allocate_ip f s own room at =
        let (h, fresh, called) = allocate_ip-succeeds f s own room at in
        (
          h,
          fresh,
          Returns-bind (allocate_ip c b node) _ s called (λ t q.
              get_all_ip-At k node named (f (address_key node)) (candidate net h) _ t
                (update_self f (address_key node) _) q),
        )
