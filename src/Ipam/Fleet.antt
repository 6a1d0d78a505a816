-- ===== src/Ipam/Fleet.antt =====
-- The address lists of all nodes under any sequence of `allocateIp` and `releaseIp` calls, while
-- ETCD answers.
use ohno.Common.{
  ℕ, ◌+◌, ◌<◌, ◌≡◌, ◌≢◌, refl, sym, ◌∙◌, subst, true, false, List, [], ◌∷◌, ◌++◌, some, arith,
  Bool-cases, inl, inr, All, All-append,
}
use ohno.Common.Bytes.{Bytes, contains, eqb, eqb_sound, eqb_iff}
use ohno.Etcd.Words.{IsName}
use ohno.Etcd.Client.{EtcdClient, EtcdContract, Items, update, update_self, update_ne, without, At}
use ohno.Etcd.Values.{IsDistinct, concat-IsDistinct, without-IsDistinct}
use ohno.Net.Boost.{Boost, BoostLaws, NetworkV4, cidr_text}
use ohno.Net.Subnet.Range.{IsPodCidr, size, size_two, cidr_text_injective, address-lt}
use ohno.Ipam.{subnet_key, address_key, allocate_ip, release_ip}
use ohno.Ipam.Keys.{subnet-ne-address, address_key_injective}
use ohno.Ipam.Allocate.{candidate, grant, cidr_text-IsItem}
use ohno.Ipam.Lowest.{allocate_ip-lowest, release_ip-At}

-- A usable address of the subnet: not its first, and not its last.
abbrev pub InRange : NetworkV4 → Bytes → Type 0
InRange net x = (h : ℕ) × (0 < h) × (h + 1 < size net) × (x ≡ candidate net h)

All-without : (P : Bytes → Type 0) (x : Bytes) (xs : List Bytes) → All P xs → All P (without x xs)
unfolding without
All-without P x [] h = tt
All-without P x (y ∷ xs) h = elim (Bool-cases (eqb y x)) [
  | inl e ↦ rw e (All-without P x xs h.1)
  | inr e ↦ rw e (h.0, All-without P x xs h.1)
]

member : (P : Bytes → Type 0) (xs : List Bytes) (x : Bytes) → All P xs → contains xs x ≡ true → P x
unfolding contains
member P [] x h e = cc
member P (y ∷ xs) x h e = elim (Bool-cases (eqb y x)) [
  | inl q ↦ subst P (eqb_sound y x q) h.0
  | inr q ↦ member P xs x h.1 (sym (rw q refl) ∙ e)
]

-- The nodes of a cluster and their pod CIDRs, of which no two share an address.
pub record Fleet : Type 1 where
  pub IsNode : Bytes → Type 0
  pub net : Bytes → NetworkV4
  pub named : (n : Bytes) → IsNode n → IsName n
  pub pod : (n : Bytes) → IsNode n → IsPodCidr (net n)
  pub apart :
      (m n : Bytes) (i j : ℕ)
      → IsNode m
      → IsNode n
      → m ≢ n
      → i < size (net m)
      → j < size (net n)
      → (net m).address + i ≢ (net n).address + j

-- Every node has its subnet, no address twice on its list, and on the list only addresses of it.
abbrev pub Listed : NetworkV4 → List Bytes → Type 0
Listed net xs = IsDistinct xs × All (InRange net) xs

abbrev pub WellFormed : Fleet → Items → Type 0
WellFormed fleet f =
    (n : Bytes)
    → fleet.IsNode n
    → (f (subnet_key n) ≡ cidr_text (fleet.net n).address (fleet.net n).prefix_length ∷ [])
      × Listed (fleet.net n) (f (address_key n))

-- What a sequence of calls leaves behind.
pub data Reaches {S : Type 0} (c : EtcdClient S) (b : Boost) (fleet : Fleet) : S → S → Type 0 where
  start : (s : S) → Reaches c b fleet s s
  allocated :
      (s t : S) (n : Bytes)
      → Reaches c b fleet s t
      → fleet.IsNode n
      → Reaches c b fleet s (allocate_ip c b n t).1
  released :
      (s t : S) (n : Bytes) (h : ℕ)
      → Reaches c b fleet s t
      → fleet.IsNode n
      → Reaches c b fleet s (release_ip c n (candidate (fleet.net n) h) t).1

module _ (fleet : Fleet) where
  -- A new list for one node.
  relisted :
      (m : Bytes) (f : Items) (xs : List Bytes)
      → WellFormed fleet f
      → Listed (fleet.net m) xs
      → WellFormed fleet (update f (address_key m) xs)
  relisted m f xs wf listed n other =
      let f_new = update f (address_key m) xs in
      let own_kept =
        update_ne f (address_key m) (subnet_key n) xs (λ e. subnet-ne-address n m (sym e)) in
      (
        own_kept ∙ (wf n other).0,
        elim (Bool-cases (eqb m n)) [
          | inl e ↦
              subst (λ z. Listed (fleet.net z) (f_new (address_key z))) (eqb_sound m n e)
                (subst (Listed (fleet.net m)) (sym (update_self f (address_key m) xs)) listed)
          | inr e ↦
              let apart : m ≢ n = λ same. cc (e, (eqb_iff m n).1 same) in
              subst (Listed (fleet.net n))
                (sym (
                  update_ne f (address_key m) (address_key n) xs
                    (λ same. apart (address_key_injective m n same))))
                (wf n other).1
        ],
      )

  module _ {S : Type 0} {c : EtcdClient S} (k : EtcdContract c) (b : Boost)
      (laws : BoostLaws b) where
    abbrev Good : S → Type 0
    Good s = (f : Items) × At k f s × WellFormed fleet f

    allocate_ip-Good : (n : Bytes) (s : S) → fleet.IsNode n → Good s → Good (allocate_ip c b n s).1
    allocate_ip-Good n s node (f, at, wf) =
        let net = fleet.net n in
        let pod = fleet.pod n node in
        let (own, (distinct, range)) = wf n node in
        elim (allocate_ip-lowest b laws net pod k n (fleet.named n node) f s own at) [
          | inl (h, (lo, hi, free, below), called) ↦
              let x = candidate net h in
              let inside : InRange net x =
                (h, omega arith, omega (arith, size_two net pod), refl) in
              (
                grant f n (some x),
                called.after,
                relisted n f (f (address_key n) ++ x ∷ []) wf (
                  concat-IsDistinct (f (address_key n)) x free distinct,
                  All-append (InRange net) (f (address_key n)) (x ∷ []) range (inside, tt),
                ),
              )
          | inr (full, called) ↦ (f, called.after, wf)
        ]

    release_ip-Good :
        (n : Bytes) (h : ℕ) (s : S)
        → fleet.IsNode n
        → Good s
        → Good (release_ip c n (candidate (fleet.net n) h) s).1
    release_ip-Good n h s node (f, at, wf) =
        let net = fleet.net n in
        let x = candidate net h in
        let (own, (distinct, range)) = wf n node in
        let called =
          release_ip-At k n (fleet.named n node) x f s
            (cidr_text-IsItem (net.address + h) net.prefix_length) at in
        (
          update f (address_key n) (without x (f (address_key n))),
          called.after,
          relisted n f _ wf (
            without-IsDistinct x (f (address_key n)) distinct,
            All-without (InRange net) x (f (address_key n)) range,
          ),
        )

    -- While ETCD answers, for a cluster whose nodes have plain words as names and pod CIDRs that
    -- share no address: after any sequence of `allocateIp` calls, and `releaseIp` calls of
    -- addresses of the node's subnet, started where the lists are well formed, ETCD still answers
    -- and the lists still are: every node has its subnet, and its list holds usable addresses of
    -- it, none twice.
    pub reached-WellFormed :
        (s t : S)
        → Reaches c b fleet s t
        → (f : Items) → At k f s
        → WellFormed fleet f
        → (g : Items) × At k g t × WellFormed fleet g
    reached-WellFormed s t (start u) f at wf = (f, at, wf)
    reached-WellFormed s t (allocated v u n r node) f at wf =
        allocate_ip-Good n u node (reached-WellFormed v u r f at wf)
    reached-WellFormed s t (released v u n h r node) f at wf =
        release_ip-Good n h u node (reached-WellFormed v u r f at wf)

    -- An address on the list of one node is not on the list of another.
    WellFormed-unique :
        (f : Items) (m n x : Bytes)
        → WellFormed fleet f
        → fleet.IsNode m
        → fleet.IsNode n
        → m ≢ n
        → contains (f (address_key m)) x ≡ true
        → contains (f (address_key n)) x ≡ false
    WellFormed-unique f m n x wf hm hn ne here =
        elim (Bool-cases (contains (f (address_key n)) x)) [
          | inr e ↦ e
          | inl there ↦
              let (i, lo, hi, ei) =
                member (InRange (fleet.net m)) (f (address_key m)) x (wf m hm).1.1 here in
              let (j, lo2, hj, ej) =
                member (InRange (fleet.net n)) (f (address_key n)) x (wf n hn).1.1 there in
              absurd (
                fleet.apart m n i j hm hn ne (omega arith) (omega arith) (
                  cidr_text_injective b laws ((fleet.net m).address + i) ((fleet.net n).address + j)
                    (fleet.net m).prefix_length (fleet.net n).prefix_length
                    (address-lt (fleet.net m) i (fleet.pod m hm) (omega arith))
                    (address-lt (fleet.net n) j (fleet.pod n hn) (omega arith))
                    (omega (arith, (fleet.pod m hm).prefix_lt))
                    (omega (arith, (fleet.pod n hn).prefix_lt)) (sym ei ∙ ej)))
        ]

    -- While ETCD answers, for a cluster whose nodes have plain words as names and pod CIDRs that
    -- share no address: after any sequence of `allocateIp` calls, and `releaseIp` calls of
    -- addresses of the node's subnet, started where the lists are well formed, no address is on the
    -- lists of two nodes.
    pub reached-apart :
        (s t : S)
        → Reaches c b fleet s t
        → (f : Items) → At k f s
        → WellFormed fleet f
        → (g : Items) × At k g t
          × ((m n x : Bytes)
              → fleet.IsNode m
              → fleet.IsNode n
              → m ≢ n
              → contains (g (address_key m)) x ≡ true
              → contains (g (address_key n)) x ≡ false)
    reached-apart s t r f at wf =
        let (g, held, kept) = reached-WellFormed s t r f at wf in
        (g, held, λ m n x hm hn ne here. WellFormed-unique g m n x kept hm hn ne here)
