-- ===== src/Net/Addr.antt =====
-- src/net/addr.cc: an address with its prefix. The constructor catches every exception and leaves
-- the version `reserved`.
pub mod Parsed
use ohno.Common.{
  ℕ, ◌+◌, ◌*◌, ◌-◌, ◌%◌, ◌^◌, ◌<◌, ◌≤◌, Bool, true, false, List, [], ◌∷◌, ◌++◌, Option, none, some,
  leb, ltb, ◌==◌, ◌&&◌, ◌||◌, if◌then◌else◌, ◌≡◌, refl,
}
use ohno.Common.Bytes.{Bytes, codes, empty}
use ohno.Common.Decimal.{decimal}
use ohno.Common.Exec.{Outcome, ok, fault, exception, and_then}
use ohno.Net.Boost.{Boost}
use ohno.Net.Cidr.{matches_ipv4}
use ohno.Net.Subnet.{IpVersion, reserved, ipv4, ipv6, max_prefix_ipv4}

-- The members that are read: the IPv6 address is stored only. `0` stands for an address that was not
-- set.
pub record Addr : Type 0 where
  pub address_v4 : ℕ
  pub ipversion : IpVersion
  pub prefix : ℕ

-- `cidr_str.find('/')` and the two `substr`: before the slash and behind it.
cut : Bytes → Option (Bytes × Bytes)
cut [] = none
cut (c ∷ s) =
    let rest = cut s in
    if c == b'/' then some ([], s) else (elim rest [ none ↦ none | some (a, p) ↦ some (c ∷ a, p) ])

-- `std::stoi`, converted to `uint32_t`: leading spaces, a sign, digits. No digit, or a value that no
-- `int` holds, is an exception.
is_space : ℕ → Bool
is_space c = c == 32 || (leb 9 c && leb c 13)

stoi_digits : Bytes → ℕ → ℕ
stoi_digits [] n = n
stoi_digits (c ∷ s) n =
    let next = stoi_digits s (n * 10 + (c - b'0')) in if leb b'0' c && leb c b'9' then next else n

starts_digit : Bytes → Bool
starts_digit [] = false
starts_digit (c ∷ s) = leb b'0' c && leb c b'9'

stoi_plus : Bytes → Option ℕ
stoi_plus s =
    let n = stoi_digits s 0 in
    if starts_digit s then (if ltb n (2 ^ 31) then some n else none) else none

stoi_minus : Bytes → Option ℕ
stoi_minus s =
    let n = stoi_digits s 0 in
    if starts_digit s then (if leb n (2 ^ 31) then some ((2 ^ 32 - n) % 2 ^ 32) else none) else none

pub stoi : Bytes → Option ℕ
stoi [] = none
stoi (c ∷ s) =
    let rest = stoi s in
    if is_space c
    then rest
    else if c == b'-'
    then stoi_minus s
    else if c == b'+'
    then stoi_plus s
    else stoi_plus (c ∷ s)

-- What the `catch` leaves behind.
caught : ℕ → Addr
caught p = record { address_v4 = 0; ipversion = reserved; prefix = p }

module _ (b : Boost) where
  -- The second half of the constructor.
  classify : Bytes → Bytes → ℕ → Addr
  unfolding caught
  classify cidr_str addr_str p =
      if matches_ipv4 cidr_str
      then (elim (b.make_address_v4 addr_str) [
        | none ↦ caught p
        | some a ↦ record { address_v4 = a; ipversion = ipv4; prefix = p }
      ])
      else if b.parses_address_v6 addr_str
      then record { address_v4 = 0; ipversion = ipv6; prefix = p }
      else caught p

  -- The constructor.
  pub new : Bytes → Addr
  unfolding classify cut stoi
  new cidr = if empty cidr then caught 0 else elim (cut cidr) [
    | none ↦ classify (cidr ++ b'/' ∷ decimal max_prefix_ipv4) cidr max_prefix_ipv4
    | some (addr_str, prefix_str) ↦ elim (stoi prefix_str) [
      | none ↦ caught 0
      | some p ↦ classify cidr addr_str p
    ]
  ]

  get_text : IpVersion → ℕ → Outcome Bytes
  get_text ipv6 a = fault exception
  get_text ipv4 a = ok (b.address_to_string a)
  get_text reserved a = ok (b.address_to_string a)

  pub get_addr : Addr → Outcome Bytes
  unfolding get_text
  get_addr a = get_text a.ipversion a.address_v4

  pub get_addr_cidr : Addr → Outcome Bytes
  unfolding get_addr
  get_addr_cidr a = and_then (get_addr a) (λ text. ok (text ++ b'/' ∷ decimal a.prefix))

stoi_examples :
    (stoi (codes "24") ≡ some 24)
    × (stoi (codes "-1") ≡ some 4294967295)
    × (stoi (codes "x") ≡ none)
unfolding stoi stoi_plus stoi_minus stoi_digits starts_digit is_space
stoi_examples = (refl, refl, refl)
