-- ===== src/Ipam/Allocate.antt =====
-- `allocateIp` while ETCD answers: it hands out the first address of the node's subnet that is not
-- on the node's list, and puts it there.
use mathlib.Core.List.{append-ne-nil_of_right_ne-nil, cons-ne-nil}
use ohno.Common.{
  ◌%◌, ℕ, zero, suc, ◌+◌, ◌-◌, ◌<◌, ◌≡◌, ◌≢◌, refl, Bool, true, false, not, List, [], ◌∷◌, ◌++◌,
  Option, none, some, arith, All, All-append, if◌then◌else◌, Bool-cases, inl, inr,
}
use ohno.Common.Bytes.{Bytes, empty_ne, contains}
use ohno.Common.Decimal.{decimal, IsDigit, decimal-IsDigit}
use ohno.Common.Exec.{Returns, Returns-bind}
use ohno.Etcd.Words.{IsName, IsItem, IsItemChar, All-imp}
use ohno.Etcd.Client.{EtcdClient, EtcdContract, Items, update, At, list-At, append-At}
use ohno.Net.Boost.{Boost, BoostLaws, NetworkV4, dotted, cidr_text}
use ohno.Net.Subnet.Range.{
  IsPodCidr, subnet_of, size, size_two, init-cidr_text, get_max_hosts_lem, generate_ip_lem,
}
use ohno.Ipam.{subnet_key, address_key, get_subnet, is_ip_available, allocate_loop, allocate_ip}
use ohno.Ipam.Keys.{address_key-IsKey}
use ohno.Ipam.Subnets.{get_owned}

digit-IsItemChar : (c : ℕ) → IsDigit c → IsItemChar c
digit-IsItemChar c h = (ground arith, (λ e. omega (arith, e)))

decimal-Items : (n : ℕ) → All IsItemChar (decimal n)
decimal-Items n = All-imp digit-IsItemChar (decimal n) (decimal-IsDigit n)

cons-Items :
    (n c : ℕ) (r : Bytes) → IsItemChar c → All IsItemChar r → All IsItemChar (decimal n ++ c ∷ r)
cons-Items n c r hc hr = All-append IsItemChar (decimal n) (c ∷ r) (decimal-Items n) (hc, hr)

dotted-Items : (a : ℕ) → All IsItemChar (dotted a)
unfolding dotted
dotted-Items a =
    let dot : IsItemChar b'.' = (refl, λ e. omega (arith, e)) in
    cons-Items _ _ _ dot (cons-Items _ _ _ dot (cons-Items _ _ _ dot (decimal-Items (a % 256))))

-- The text of an address is one value of a list.
pub cidr_text-IsItem : (a p : ℕ) → IsItem (cidr_text a p)
cidr_text-IsItem a p = (
  append-ne-nil_of_right_ne-nil (dotted a) (cons-ne-nil b'/' (decimal p)),
  All-append IsItemChar (dotted a) (b'/' ∷ decimal p) (dotted-Items a)
      ((refl, λ e. omega (arith, e)), decimal-Items p),
)

-- The address with host number `i`.
abbrev pub candidate : NetworkV4 → ℕ → Bytes
candidate net i = cidr_text (net.address + i) net.prefix_length

-- The first of `n` addresses from host number `i` on that is not taken.
unfoldable pub first_free : NetworkV4 → ℕ → ℕ → List Bytes → Option Bytes
first_free net zero i taken = none
first_free net (suc n) i taken =
    let rest = first_free net n (i + 1) taken in
    if contains taken (candidate net i) then rest else some (candidate net i)

abbrev pub answer : Option Bytes → Bool × Bytes
answer none = (false, [])
answer (some ip) = (true, ip)

-- The address is put at the end of the node's list.
abbrev pub grant : Items → Bytes → Option Bytes → Items
grant f node none = f
grant f node (some ip) = update f (address_key node) (f (address_key node) ++ ip ∷ [])

module _ {S : Type 0} {c : EtcdClient S} (k : EtcdContract c) (b : Boost) (laws : BoostLaws b)
    (node : Bytes) (named : IsName node) (net : NetworkV4) (pod : IsPodCidr net) where
  available-At :
      (ip : Bytes) (f : Items) (s : S)
      → ip ≢ []
      → At k f s
      → Returns (is_ip_available c node ip s) (not (contains (f (address_key node)) ip)) (At k f)
  unfolding is_ip_available
  available-At ip f s full h =
      rw (empty_ne node named.0, empty_ne ip full)
        (Returns-bind (c.list (address_key node)) _ s
          (list-At k (address_key node) f s (address_key-IsKey node named) h)
          (λ t q. record { result = refl; after = q }))

  abbrev Granted : Items → Option Bytes → S → Type 0
  Granted f found = At k (grant f node found)

  loop-At :
      (n i : ℕ) (f : Items) (s : S)
      → 0 < i
      → i + n < size net
      → At k f s
      → Returns
          (allocate_loop c b n i node (subnet_of net) s)
          (answer (first_free net n i (f (address_key node))))
          (Granted f (first_free net n i (f (address_key node))))
  unfolding allocate_loop first_free
  loop-At zero i f s lo hi h = record { result = refl; after = h }
  loop-At (suc n) i f s lo hi h =
      let ip = candidate net i in
      let item = cidr_text-IsItem (net.address + i) net.prefix_length in
      rw (generate_ip_lem b laws net i pod lo (omega arith)) (
        Returns-bind (is_ip_available c node ip) _ s (available-At ip f s item.0 h) (λ t q.
          elim (Bool-cases (contains (f (address_key node)) ip)) [
            | inl used ↦ rw used (loop-At n (i + 1) f t (omega arith) (omega arith) q)
            | inr free ↦ rw free (
                Returns-bind (c.append (address_key node) ip) _ t
                  (append-At k (address_key node) ip f t (address_key-IsKey node named) item q)
                  (λ u r. record { result = refl; after = r }))
          ]))

  -- Where the node's subnet is stored, the whole call.
  pub allocate_ip-At :
      (f : Items) (s : S)
      → f (subnet_key node) ≡ cidr_text net.address net.prefix_length ∷ []
      → At k f s
      → Returns
          (allocate_ip c b node s)
          (answer (first_free net (size net - 2) 1 (f (address_key node))))
          (Granted f (first_free net (size net - 2) 1 (f (address_key node))))
  unfolding allocate_ip
  allocate_ip-At f s own h =
      let big = size_two net pod in
      Returns-bind (get_subnet c node) _ s
        (get_owned k node named _ f s (cidr_text-IsItem net.address net.prefix_length) own h)
        (λ t q.
          rw
            (
              init-cidr_text b laws net.address net.prefix_length pod.address_lt
                  (omega (arith, pod.prefix_lt)),
              get_max_hosts_lem b laws net pod,
            )
            (loop-At (size net - 2) 1 f t (omega arith) (omega (arith, big)) q))
