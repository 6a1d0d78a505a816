-- ===== src/Net/Subnet.antt =====
-- src/net/subnet.cc: a subnet, and the addresses that it generates. `Prefix` is `uint32_t`.
pub mod Range
pub mod Reading
use ohno.Common.{
  ℕ, ◌+◌, ◌-◌, ◌%◌, ◌^◌, Bool, true, false, not, List, [], ◌∷◌, ◌++◌, Option, none, some, ltb, leb,
  ◌==◌, if◌then◌else◌,
}
use ohno.Common.Bytes.{Bytes, empty}
use ohno.Common.Decimal.{decimal}
use ohno.Common.Exec.{Outcome, ok, fault, assertion, exception, undefined, and_then}
use ohno.Net.Boost.{Boost, NetworkV4}
use ohno.Net.Cidr.{matches_ipv4, matches_ipv6}
use ohno.Helper.{until}

pub data IpVersion : Type 0 where
  reserved ipv4 ipv6 : IpVersion

-- `MAX_PREFIX_IPV4`
abbrev pub max_prefix_ipv4 : ℕ
max_prefix_ipv4 = 32

-- The IPv6 network is stored and never read.
pub record Subnet : Type 0 where
  pub subnet_v4 : NetworkV4
  pub ipversion : IpVersion

-- `boost::asio::ip::network_v4{}`
abbrev unset : NetworkV4
unset = record { address = 0; prefix_length = 0 }

infixl 5 ◌>>=◌ ◌>>◌
abbrev ◌>>=◌ {ℓ κ} : {A : Type ℓ} {B : Type κ} → Outcome A → (A → Outcome B) → Outcome B
◌>>=◌ = and_then

abbrev ◌>>◌ {ℓ} : {B : Type ℓ} → Outcome (Unit {0}) → Outcome B → Outcome B
m >> k = m >>= λ _. k

parsed : Option NetworkV4 → Outcome Subnet
parsed none = fault exception
parsed (some n) = ok (record { subnet_v4 = n; ipversion = ipv4 })

check_ipv6 : IpVersion → Outcome (Unit {0})
check_ipv6 ipv6 = fault exception
check_ipv6 reserved = ok tt
check_ipv6 ipv4 = ok tt

-- `1 << k` in a 32-bit `int`, converted to `uint32_t`.
shift_one : ℕ → Outcome ℕ
shift_one k = if ltb k 32 then ok (2 ^ k) else fault undefined

module _ (b : Boost) where
  pub init : Bytes → Outcome Subnet
  unfolding parsed
  init cidr =
      if empty cidr
      then fault assertion
      else if matches_ipv4 cidr
      then parsed (b.make_network_v4 cidr)
      else if matches_ipv6 cidr
      then (if b.parses_network_v6 cidr
          then ok (record { subnet_v4 = unset; ipversion = ipv6 })
          else fault exception)
      else fault exception

  pub get_subnet : Subnet → Outcome Bytes
  unfolding check_ipv6
  get_subnet s = do check_ipv6 s.ipversion; ok (b.network_to_string s.subnet_v4)

  pub get_prefix : Subnet → Outcome ℕ
  unfolding check_ipv6
  get_prefix s = do check_ipv6 s.ipversion; ok s.subnet_v4.prefix_length

  pub extract_addr : Subnet → Outcome Bytes
  unfolding get_subnet
  extract_addr s = do check_ipv6 s.ipversion; cidr ← get_subnet s; ok (until b'/' cidr).0

  generate_ip_impl : NetworkV4 → ℕ → Outcome ℕ
  generate_ip_impl base_net index =
      if ltb index 1
      then fault exception
      else if base_net.prefix_length == max_prefix_ipv4
      then ok base_net.address
      else ok ((base_net.address + index) % 2 ^ 32)

  pub generate_ip : Subnet → ℕ → Outcome Bytes
  unfolding check_ipv6 generate_ip_impl
  generate_ip s index = do
    check_ipv6 s.ipversion
    a ← generate_ip_impl s.subnet_v4 index
    ok (b.address_to_string a ++ b'/' ∷ decimal s.subnet_v4.prefix_length)

  pub is_subnet_of : Subnet → Bytes → Outcome Bool
  unfolding init check_ipv6
  is_subnet_of s cidr = do
    other ← init cidr
    check_ipv6 s.ipversion
    ok (b.is_subnet_of s.subnet_v4 other.subnet_v4)

  get_max_subnets_from_cidr : Subnet → ℕ → Outcome ℕ
  unfolding check_ipv6 shift_one
  get_max_subnets_from_cidr s new_prefix = do
    check_ipv6 s.ipversion
    if leb new_prefix s.subnet_v4.prefix_length
        then fault exception
        else shift_one (new_prefix - s.subnet_v4.prefix_length)

  pub get_max_hosts : Subnet → Outcome ℕ
  unfolding get_max_subnets_from_cidr
  get_max_hosts s = get_max_subnets_from_cidr s max_prefix_ipv4
