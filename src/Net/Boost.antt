-- ===== src/Net/Boost.antt =====
-- Boost.Asio's IPv4 addresses and networks, a parameter of the model. An address is the number that
-- `to_uint` returns. Of IPv6 the program uses only whether a text parses.
use ohno.Common.{ℕ, ◌-◌, ◌/◌, ◌%◌, ◌^◌, ◌≤◌, ◌<◌, ◌≡◌, ◌↔◌, Bool, true, ◌∷◌, ◌++◌, Option, some}
use ohno.Common.Bytes.{Bytes}
use ohno.Common.Decimal.{decimal}

pub record NetworkV4 : Type 0 where
  pub address : ℕ
  pub prefix_length : ℕ

pub record Boost : Type 0 where
  -- `none` is the exception of a text that does not parse
  pub make_address_v4 : Bytes → Option ℕ
  pub make_network_v4 : Bytes → Option NetworkV4
  pub parses_address_v6 : Bytes → Bool
  pub parses_network_v6 : Bytes → Bool
  pub address_to_string : ℕ → Bytes
  pub network_to_string : NetworkV4 → Bytes
  pub is_subnet_of : NetworkV4 → NetworkV4 → Bool

-- Four numbers and three dots.
unfoldable pub dotted : ℕ → Bytes
dotted a =
    decimal (a / 2 ^ 24)
    ++ b'.'
      ∷ (decimal (a / 2 ^ 16 % 256)
          ++ b'.' ∷ (decimal (a / 2 ^ 8 % 256) ++ b'.' ∷ decimal (a % 256)))

abbrev pub cidr_text : ℕ → ℕ → Bytes
cidr_text a p = dotted a ++ b'/' ∷ decimal p

abbrev pub IsNetwork : NetworkV4 → Type 0
IsNetwork n = (n.address < 2 ^ 32) × (n.prefix_length ≤ 32)

-- What the documentation of Boost.Asio says of these functions.
pub record BoostLaws (b : Boost) : Type 0 where
  pub address_text : (a : ℕ) → a < 2 ^ 32 → b.address_to_string a ≡ dotted a
  pub network_text :
      (n : NetworkV4) → IsNetwork n → b.network_to_string n ≡ cidr_text n.address n.prefix_length
  pub address_parsed : (a : ℕ) → a < 2 ^ 32 → b.make_address_v4 (dotted a) ≡ some a
  pub network_parsed :
      (a p : ℕ)
      → a < 2 ^ 32
      → p ≤ 32
      → b.make_network_v4 (cidr_text a p) ≡ some (record { address = a; prefix_length = p })
  pub subnet_iff :
      (m n : NetworkV4)
      → (b.is_subnet_of m n ≡ true) ↔ (
          (n.prefix_length < m.prefix_length)
          × (m.address / 2 ^ (32 - n.prefix_length) ≡ n.address / 2 ^ (32 - n.prefix_length)))
