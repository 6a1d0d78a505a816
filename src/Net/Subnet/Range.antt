-- ===== src/Net/Subnet/Range.antt =====
-- The addresses that a subnet generates.
use mathlib.Core.List.{append-ne-nil_of_right_ne-nil, cons-ne-nil}
use native.Mathlib.Nat.{
  mul_right_comm, pow-suc, div-add-mod, lt_of_mul-lt-mul_left, mul-le-mul_left,
  le_of_mul-le-mul_left, mod-add-mod, mod-eq_of_lt,
}
use ohno.Common.{
  ℕ, zero, suc, ◌+◌, ◌-◌, ◌*◌, ◌/◌, ◌%◌, ◌^◌, ◌≤◌, ◌<◌, ◌≡◌, some, arith, ap, sym, ◌∙◌,
}
use ohno.Common.Bytes.{empty_ne}
use ohno.Common.Decimal.{decimal}
use ohno.Common.Exec.{ok}
use ohno.Net.Boost.{Boost, BoostLaws, NetworkV4, cidr_text, dotted}
use ohno.Net.Cidr.{matches_ipv4-cidr_text}
use ohno.Net.Subnet.{Subnet, ipv4, init, generate_ip, get_max_hosts}

-- An IPv4 subnet of at least two addresses that are numbered from a multiple of its size, as the
-- pod CIDR of a node is; not the whole address space.
pub record IsPodCidr (n : NetworkV4) : Type 0 where
  pub address_lt : n.address < 2 ^ 32
  pub prefix_pos : 0 < n.prefix_length
  pub prefix_lt : n.prefix_length < 32
  pub aligned : n.address % 2 ^ (32 - n.prefix_length) ≡ 0

abbrev pub subnet_of : NetworkV4 → Subnet
subnet_of n = record { subnet_v4 = n; ipversion = ipv4 }

-- The number of addresses of the subnet.
abbrev pub size : NetworkV4 → ℕ
size n = 2 ^ (32 - n.prefix_length)

powers : (k p : ℕ) → 2 ^ k * 2 ^ p ≡ 2 ^ (k + p)
powers zero p = omega (arith, ap (λ j. 2 ^ j) {x = 0 + p} {y = p} (omega arith))
powers (suc k) p =
    rw (pow-suc 2 k, mul_right_comm (2 ^ k) 2 (2 ^ p), powers k p)
      (sym (pow-suc 2 (k + p)) ∙ ap (λ j. 2 ^ j) {x = suc (k + p)} {y = suc k + p} (omega arith))

-- A network of a given prefix has its share of the 32-bit numbers.
size_share : (p : ℕ) → p < 32 → 2 ^ (32 - p) * 2 ^ p ≡ 2 ^ 32
size_share p h = powers (32 - p) p ∙ ap (λ k. 2 ^ k) {y = 32} (omega (arith, h))

block : (m q a i : ℕ) → a % m ≡ 0 → a < m * q → i < m → a + i < m * q
block m q a i h lt hi =
    let e = div-add-mod a m in
    let below : a / m < q = lt_of_mul-lt-mul_left m (omega (arith, e)) in
    omega (arith, e, mul-le-mul_left m below)

-- Behind an address that starts a block of `m`, the next `m` are numbered within the block.
pub within_block : (m a i : ℕ) → a % m ≡ 0 → i < m → ((a + i) / m ≡ a / m) × ((a + i) % m ≡ i)
within_block m a i h hi =
    let r : (a + i) % m ≡ i =
      sym (mod-add-mod a m i) ∙ ap (λ k. k % m) (omega (arith, h)) ∙ mod-eq_of_lt hi in
    let e = div-add-mod a m in
    let f = div-add-mod (a + i) m in
    let same : m * ((a + i) / m) ≡ m * (a / m) = omega (arith, e, f, r, h) in
    let le : (a + i) / m ≤ a / m =
      le_of_mul-le-mul_left {k = m} (omega (arith, same)) (omega arith) in
    let ge : a / m ≤ (a + i) / m =
      le_of_mul-le-mul_left {k = m} (omega (arith, same)) (omega arith) in
    (omega arith, r)

size_pos : (k : ℕ) → 0 < 2 ^ k
size_pos zero = omega arith
size_pos (suc k) = omega (arith, pow-suc 2 k, size_pos k)

-- A subnet of a prefix below 32 has at least two addresses.
pub size_two : (n : NetworkV4) → IsPodCidr n → 2 ≤ size n
size_two n h = halved (32 - n.prefix_length) (omega (arith, h.prefix_lt))
  where
    halved : (k : ℕ) → 0 < k → 2 ≤ 2 ^ k
    halved zero p = absurd (omega arith)
    halved (suc k) p = omega (arith, pow-suc 2 k, size_pos k)

-- The addresses of a subnet are 32-bit numbers.
pub address-lt : (n : NetworkV4) (i : ℕ) → IsPodCidr n → i < size n → n.address + i < 2 ^ 32
address-lt n i h hi =
    let e = size_share n.prefix_length h.prefix_lt in
    rw (← e) (block (size n) (2 ^ n.prefix_length) n.address i h.aligned (rw e h.address_lt) hi)

some_injective : {m n : NetworkV4} → some m ≡ some n → m ≡ n
some_injective e = cc

module _ (b : Boost) (laws : BoostLaws b) where
  pub init-cidr_text :
      (a p : ℕ)
      → a < 2 ^ 32
      → p ≤ 32
      → init b (cidr_text a p) ≡ ok (subnet_of (record { address = a; prefix_length = p }))
  unfolding init
  init-cidr_text a p ha hp = rw (
    empty_ne (cidr_text a p)
        (append-ne-nil_of_right_ne-nil (dotted a) (cons-ne-nil b'/' (decimal p))),
    matches_ipv4-cidr_text a p,
    laws.network_parsed a p ha hp,
  )

  pub get_max_hosts_lem :
      (n : NetworkV4) → IsPodCidr n → get_max_hosts b (subnet_of n) ≡ ok (size n)
  unfolding get_max_hosts
  get_max_hosts_lem n h = ground arith

  pub generate_ip_lem :
      (n : NetworkV4) (i : ℕ)
      → IsPodCidr n
      → 0 < i
      → i < size n
      → generate_ip b (subnet_of n) i ≡ ok (cidr_text (n.address + i) n.prefix_length)
  unfolding generate_ip
  generate_ip_lem n i h lo hi =
      let fits = address-lt n i h hi in ground (arith, laws.address_text (n.address + i) fits)

  -- In a pod CIDR, for a host number from 1 to the size less 1: the generated address is a 32-bit
  -- address of the same network and has that host number.
  pub generate_ip-InSubnet :
      (n : NetworkV4) (i : ℕ)
      → IsPodCidr n
      → 0 < i
      → i < size n
      → (a : ℕ) × (generate_ip b (subnet_of n) i ≡ ok (cidr_text a n.prefix_length))
        × (a < 2 ^ 32)
        × (a / size n ≡ n.address / size n)
        × (a % size n ≡ i)
  generate_ip-InSubnet n i h lo hi =
      let inside = within_block (size n) n.address i h.aligned hi in
      (n.address + i, generate_ip_lem n i h lo hi, address-lt n i h hi, inside.0, inside.1)

  pub cidr_text_injective :
      (a c p q : ℕ)
      → a < 2 ^ 32
      → c < 2 ^ 32
      → p ≤ 32
      → q ≤ 32
      → cidr_text a p ≡ cidr_text c q
      → a ≡ c
  cidr_text_injective a c p q ha hc hp hq e =
      let parsed_alike : some (record { address = a; prefix_length = p })
          ≡ some (record { address = c; prefix_length = q }) =
        sym (laws.network_parsed a p ha hp)
        ∙ ap b.make_network_v4 e
        ∙ laws.network_parsed c q hc hq in
      ap (λ (n : NetworkV4). n.address) (some_injective parsed_alike)

  -- Two host numbers of a pod CIDR give two texts.
  pub generate_ip_injective :
      (n : NetworkV4) (i j : ℕ)
      → IsPodCidr n
      → i < size n
      → j < size n
      → cidr_text (n.address + i) n.prefix_length ≡ cidr_text (n.address + j) n.prefix_length
      → i ≡ j
  generate_ip_injective n i j h hi hj e = omega (
    arith,
    cidr_text_injective (n.address + i) (n.address + j) n.prefix_length n.prefix_length
        (address-lt n i h hi) (address-lt n j h hj) (omega (arith, h.prefix_lt))
        (omega (arith, h.prefix_lt)) e,
  )
