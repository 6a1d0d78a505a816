-- ===== src/Tests/Networks.antt =====
-- A concrete implementation of the functions of Boost.Asio, and that it does what they document.
use ohno.Common.{
  ℕ, ◌+◌, ◌-◌, ◌*◌, ◌/◌, ◌%◌, ◌^◌, ◌≤◌, ◌<◌, ◌≡◌, ◌≢◌, refl, ap, Bool, false, ◌&&◌, ◌==◌, ltb, List,
  [], ◌∷◌, ◌++◌, Option, none, some, arith, All-append,
}
use ohno.Common.Bytes.{Bytes}
use ohno.Common.Decimal.{decimal, read, read-decimal, decimal-IsDigit, decimal-ne-nil}
use ohno.Etcd.Words.{All-imp}
use ohno.Helper.{split}
use ohno.Helper.Split.{join, Lacks, split-join}
use ohno.Net.Boost.{Boost, BoostLaws, NetworkV4, dotted, cidr_text}

parts_address : List Bytes → Option ℕ
parts_address (a ∷ b ∷ c ∷ d ∷ []) =
    some (((read 0 a * 256 + read 0 b) * 256 + read 0 c) * 256 + read 0 d)
parts_address r = none

parse_address : Bytes → Option ℕ
parse_address s = parts_address (split s b'.')

with_prefix : Option ℕ → ℕ → Option NetworkV4
with_prefix none p = none
with_prefix (some a) p = some (record { address = a; prefix_length = p })

parts_network : List Bytes → Option NetworkV4
parts_network (a ∷ p ∷ []) = with_prefix (parse_address a) (read 0 p)
parts_network r = none

parse_network : Bytes → Option NetworkV4
parse_network s = parts_network (split s b'/')

within : NetworkV4 → NetworkV4 → Bool
within m n =
    ltb n.prefix_length m.prefix_length
    && (m.address / 2 ^ (32 - n.prefix_length) == n.address / 2 ^ (32 - n.prefix_length))

unfoldable pub asio : Boost
unfolding parse_address parts_address parse_network parts_network with_prefix within
asio = record {
  make_address_v4 = parse_address;
  make_network_v4 = parse_network;
  parses_address_v6 = λ s. false;
  parses_network_v6 = λ s. false;
  address_to_string = dotted;
  network_to_string = λ n. cidr_text n.address n.prefix_length;
  is_subnet_of = within;
}

digits-Lacks : (d n : ℕ) → d < b'0' → Lacks d (decimal n)
digits-Lacks d n h =
    All-imp {Q = λ c. c ≢ d} (λ c p e. omega (arith, p, e)) (decimal n) (decimal-IsDigit n)

no_dot : (n : ℕ) → Lacks b'.' (decimal n)
no_dot n = digits-Lacks b'.' n (omega arith)

no_slash : (n : ℕ) → Lacks b'/' (decimal n)
no_slash n = digits-Lacks b'/' n (omega arith)

split-dotted :
    (a : ℕ)
    → split (dotted a) b'.'
      ≡ decimal (a / 2 ^ 24)
        ∷ decimal (a / 2 ^ 16 % 256)
        ∷ decimal (a / 2 ^ 8 % 256)
        ∷ decimal (a % 256)
        ∷ []
unfolding dotted join
split-dotted a =
    split-join b'.'
      (decimal (a / 2 ^ 24)
        ∷ decimal (a / 2 ^ 16 % 256)
        ∷ decimal (a / 2 ^ 8 % 256)
        ∷ decimal (a % 256)
        ∷ [])
      (no_dot _, (no_dot _, (no_dot _, (no_dot _, tt)))) (decimal-ne-nil (a % 256))

parse_address-dotted : (a : ℕ) → a < 2 ^ 32 → parse_address (dotted a) ≡ some a
unfolding parse_address parts_address
parse_address-dotted a h =
    rw
      (
        split-dotted a,
        read-decimal (a / 2 ^ 24) (omega arith),
        read-decimal (a / 2 ^ 16 % 256) (omega arith),
        read-decimal (a / 2 ^ 8 % 256) (omega arith),
        read-decimal (a % 256) (omega arith),
      )
      (ap some (omega arith))

behind : (n : ℕ) (r : Bytes) → Lacks b'/' r → Lacks b'/' (decimal n ++ b'.' ∷ r)
behind n r h =
    All-append (λ c. c ≢ b'/') (decimal n) (b'.' ∷ r) (no_slash n) ((λ e. omega (arith, e)), h)

slashless : (a : ℕ) → Lacks b'/' (dotted a)
unfolding dotted
slashless a =
    behind (a / 2 ^ 24) _
      (behind (a / 2 ^ 16 % 256) _ (behind (a / 2 ^ 8 % 256) _ (no_slash (a % 256))))

parse_network-cidr_text :
    (a p : ℕ)
    → a < 2 ^ 32
    → p ≤ 32
    → parse_network (cidr_text a p) ≡ some (record { address = a; prefix_length = p })
unfolding parse_network parts_network with_prefix join
parse_network-cidr_text a p ha hp =
    rw
      (
        split-join b'/' (dotted a ∷ decimal p ∷ []) (slashless a, (no_slash p, tt))
            (decimal-ne-nil p),
        parse_address-dotted a ha,
        read-decimal p (omega arith),
      )
      refl

pub asio-BoostLaws : BoostLaws asio
unfolding asio within
asio-BoostLaws = record {
  address_text = λ a h. refl;
  network_text = λ n h. refl;
  address_parsed = parse_address-dotted;
  network_parsed = parse_network-cidr_text;
  subnet_iff = λ m n. ground arith;
}
