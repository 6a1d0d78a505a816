-- ===== src/Storage/Keys.antt =====
-- The keys of the storage: no two of them are the same, and each is a key of the program.
use ohno.Common.{
  ℕ, not, ◌&&◌, ◌==◌, and_true, subst, ◌≡◌, ◌≢◌, refl, sym, ap, ◌∙◌, Bool, true, List, [], ◌∷◌,
  Option, none, some, arith, All, All-append, append_assoc, if◌then◌else◌,
}
use ohno.Common.Bytes.{Bytes, codes, eqb}
use ohno.Helper.{split}
use ohno.Helper.Split.{join, EndsFull, split-join}
use ohno.Etcd.Words.{IsKey, key, IsName, IsWordChar, is_word_char, All-imp}
use ohno.Storage.{
  get_netns_key, get_single_pod_key, get_all_pods_key, get_nic_key, get_addr_key, get_route_key,
  get_vtep_key,
}

-- Everything that the storage keeps under one key.
pub data Slot : Type 0 where
  netns : Bytes → Bytes → Slot
  single_pod : Bytes → Bytes → Slot
  all_pods : Bytes → Slot
  nic : Bytes → Bytes → Slot
  addr : Bytes → Bytes → Bytes → Slot
  route : Bytes → Bytes → Bytes → Slot
  vtep : Bytes → Slot

abbrev pub key_of : Slot → Bytes
key_of (netns n p) = get_netns_key n p
key_of (single_pod n x) = get_single_pod_key n x
key_of (all_pods n) = get_all_pods_key n
key_of (nic n p) = get_nic_key n p
key_of (addr n p d) = get_addr_key n p d
key_of (route n p d) = get_route_key n p d
key_of (vtep n) = get_vtep_key n

-- The names in a key hold no slash, no comma and nothing that the shell changes.
abbrev pub IsNamed : Slot → Type 0
IsNamed (netns n p) = IsName n × IsName p
IsNamed (single_pod n x) = IsName n × IsName x
IsNamed (all_pods n) = IsName n
IsNamed (nic n p) = IsName n × IsName p
IsNamed (addr n p d) = IsName n × IsName p × IsName d
IsNamed (route n p d) = IsName n × IsName p × IsName d
IsNamed (vtep n) = IsName n

abbrev behind_node : Slot → List Bytes
behind_node (netns n p) = n ∷ codes "pod" ∷ p ∷ codes "netns" ∷ []
behind_node (single_pod n x) = n ∷ codes "netns" ∷ x ∷ codes "pod" ∷ []
behind_node (all_pods n) = n ∷ codes "pod" ∷ []
behind_node (nic n p) = n ∷ codes "pod" ∷ p ∷ codes "nic" ∷ []
behind_node (addr n p d) = n ∷ codes "pod" ∷ p ∷ codes "nic" ∷ d ∷ codes "addr" ∷ []
behind_node (route n p d) = n ∷ codes "pod" ∷ p ∷ codes "nic" ∷ d ∷ codes "route" ∷ []
behind_node (vtep n) = n ∷ codes "vtep" ∷ []

abbrev segments : Slot → List Bytes
segments a = [] ∷ codes "ohno" ∷ codes "node" ∷ behind_node a

-- The slot that segments name.
decode : List Bytes → Option Slot
decode (a ∷ b ∷ c ∷ n ∷ k ∷ []) = some (if eqb k (codes "pod") then all_pods n else vtep n)
decode (a ∷ b ∷ c ∷ n ∷ k ∷ x ∷ l ∷ []) = some (
    if eqb k (codes "netns")
    then single_pod n x
    else if eqb l (codes "netns")
    then netns n x
    else nic n x)
decode (a ∷ b ∷ c ∷ n ∷ k ∷ p ∷ l ∷ d ∷ m ∷ []) =
    some (if eqb m (codes "addr") then addr n p d else route n p d)
decode r = none

key_of-join : (a : Slot) → key_of a ≡ join (segments a) b'/'
unfolding join get_netns_key get_single_pod_key get_all_pods_key get_nic_key get_addr_key
    get_route_key get_vtep_key
key_of-join (netns n p) = simp append_assoc
key_of-join (single_pod n x) = simp append_assoc
key_of-join (all_pods n) = simp append_assoc
key_of-join (nic n p) = simp append_assoc
key_of-join (addr n p d) = simp append_assoc
key_of-join (route n p d) = simp append_assoc
key_of-join (vtep n) = simp append_assoc

abbrev IsSegmentChar : ℕ → Type 0
IsSegmentChar c = (is_word_char c ≡ true) × (c ≢ b'/')

abbrev IsSegment : Bytes → Type 0
IsSegment = All IsSegmentChar

-- A literal is checked by evaluation.
abbrev segment_chars : Bytes → Bool
segment_chars [] = true
segment_chars (c ∷ s) = (is_word_char c && not (c == b'/')) && segment_chars s

literal : (s : Bytes) → segment_chars s ≡ true → IsSegment s
literal [] h = tt
literal (c ∷ s) h =
    let (hc, hs) = and_true (is_word_char c && not (c == b'/')) (segment_chars s) h in
    let (word, other) = and_true (is_word_char c) (not (c == b'/')) hc in
    ((word, ground (arith, other)), literal s hs)

named : (x : Bytes) → IsName x → IsSegment x
named x h = All-imp (λ c p. (p.0, p.2)) x h.1

behind_node-IsSegment : (a : Slot) → IsNamed a → All IsSegment (behind_node a)
behind_node-IsSegment (netns n p) (hn, hp) =
    (named n hn, (literal (codes "pod") refl, (named p hp, (literal (codes "netns") refl, tt))))
behind_node-IsSegment (single_pod n x) (hn, hx) =
    (named n hn, (literal (codes "netns") refl, (named x hx, (literal (codes "pod") refl, tt))))
behind_node-IsSegment (all_pods n) hn = (named n hn, (literal (codes "pod") refl, tt))
behind_node-IsSegment (nic n p) (hn, hp) =
    (named n hn, (literal (codes "pod") refl, (named p hp, (literal (codes "nic") refl, tt))))
behind_node-IsSegment (addr n p d) (hn, hp, hd) = (
  named n hn,
  (
    literal (codes "pod") refl,
    (named p hp, (literal (codes "nic") refl, (named d hd, (literal (codes "addr") refl, tt)))),
  ),
)
behind_node-IsSegment (route n p d) (hn, hp, hd) = (
  named n hn,
  (
    literal (codes "pod") refl,
    (named p hp, (literal (codes "nic") refl, (named d hd, (literal (codes "route") refl, tt)))),
  ),
)
behind_node-IsSegment (vtep n) hn = (named n hn, (literal (codes "vtep") refl, tt))

segments-IsSegment : (a : Slot) → IsNamed a → All IsSegment (segments a)
segments-IsSegment a h =
    (tt, (literal (codes "ohno") refl, (literal (codes "node") refl, behind_node-IsSegment a h)))

module _ {P Q : Bytes → Type 0} (f : (x : Bytes) → P x → Q x) where
  each : (xs : List Bytes) → All P xs → All Q xs
  each [] h = tt
  each (x ∷ xs) h = (f x h.0, each xs h.1)

segments-EndsFull : (a : Slot) → EndsFull (segments a)
segments-EndsFull (netns n p) = λ e. cc
segments-EndsFull (single_pod n x) = λ e. cc
segments-EndsFull (all_pods n) = λ e. cc
segments-EndsFull (nic n p) = λ e. cc
segments-EndsFull (addr n p d) = λ e. cc
segments-EndsFull (route n p d) = λ e. cc
segments-EndsFull (vtep n) = λ e. cc

split-key_of : (a : Slot) → IsNamed a → split (key_of a) b'/' ≡ segments a
split-key_of a h =
    ap (λ k. split k b'/') (key_of-join a)
    ∙ split-join b'/' (segments a)
        (each (All-imp (λ c p. p.1)) (segments a) (segments-IsSegment a h)) (segments-EndsFull a)

decode-segments : (a : Slot) → decode (segments a) ≡ some a
unfolding decode eqb
decode-segments (netns n p) = refl
decode-segments (single_pod n x) = refl
decode-segments (all_pods n) = refl
decode-segments (nic n p) = refl
decode-segments (addr n p d) = refl
decode-segments (route n p d) = refl
decode-segments (vtep n) = refl

some_injective : {a b : Slot} → some a ≡ some b → a ≡ b
some_injective e = cc

-- Slots whose names are plain words without a slash or a comma have the same key only if they are
-- the same slot.
pub key_of-injective : (a b : Slot) → IsNamed a → IsNamed b → key_of a ≡ key_of b → a ≡ b
key_of-injective a b ha hb e = some_injective (
    sym (decode-segments a)
    ∙ ap decode (sym (split-key_of a ha) ∙ ap (λ k. split k b'/') e ∙ split-key_of b hb)
    ∙ decode-segments b)

join-IsWordChar : (xs : List Bytes) → All (All IsWordChar) xs → All IsWordChar (join xs b'/')
unfolding join
join-IsWordChar [] h = tt
join-IsWordChar (x ∷ []) h = h.0
join-IsWordChar (x ∷ y ∷ r) h =
    All-append IsWordChar x (b'/' ∷ join (y ∷ r) b'/') h.0 (refl, join-IsWordChar (y ∷ r) h.1)

-- A key behind its first five characters.
tail : Slot → List Bytes
tail a = [] ∷ codes "node" ∷ behind_node a

pub key_of-IsKey : (a : Slot) → IsNamed a → IsKey (key_of a)
unfolding tail join
key_of-IsKey a h =
    let words = each (All-imp (λ c p. p.0)) (segments a) (segments-IsSegment a h) in
    subst IsKey (sym (key_of-join a))
      (key (join (tail a) b'/') (join-IsWordChar (tail a) (tt, words.1.1)))
