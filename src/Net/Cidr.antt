-- ===== src/Net/Cidr.antt =====
-- src/net/macro.h: the regular expressions for CIDR texts, matched as `std::regex_match` does. Each
-- `\d+` is followed by another character or the end, so one pass from the left decides.
use ohno.Common.{
  ℕ, ◌≡◌, ◌≢◌, refl, Bool, true, false, ◌&&◌, ◌||◌, [], ◌∷◌, ◌++◌, Option, none, some, arith, leb,
  ◌==◌, if◌then◌else◌, All, append_assoc, ap,
}
use ohno.Common.Bytes.{Bytes, codes}
use ohno.Common.Decimal.{decimal, IsDigit, decimal-IsDigit, decimal-ne-nil}
use ohno.Net.Boost.{dotted, cidr_text}

is_digit : ℕ → Bool
is_digit c = leb b'0' c && leb c b'9'

is_hex_or_colon : ℕ → Bool
unfolding is_digit
is_hex_or_colon c =
    is_digit c || (leb b'a' c && leb c b'f') || (leb b'A' c && leb c b'F') || (c == b':')

module _ (p : ℕ → Bool) where
  skip : Bytes → Bytes
  skip [] = []
  skip (c ∷ s) = let rest = skip s in if p c then rest else c ∷ s

  -- One or more characters of a class; what is left.
  many : Bytes → Option Bytes
  many [] = none
  many (c ∷ s) = if p c then some (skip s) else none

-- One character.
one : ℕ → Bytes → Option Bytes
one c [] = none
one c (e ∷ s) = if e == c then some s else none

at_end : Bytes → Bool
at_end [] = true
at_end (c ∷ s) = false

infixl 5 ◌>>=◌
abbrev ◌>>=◌ : Option Bytes → (Bytes → Option Bytes) → Option Bytes
none >>= f = none
some a >>= f = f a

finished : Option Bytes → Bool
unfolding at_end
finished none = false
finished (some s) = at_end s

ipv4 : Bytes → Option Bytes
ipv4 s = do
  a ← many is_digit s
  b ← one b'.' a
  c ← many is_digit b
  d ← one b'.' c
  e ← many is_digit d
  f ← one b'.' e
  g ← many is_digit f
  h ← one b'/' g
  many is_digit h

ipv6 : Bytes → Option Bytes
ipv6 s = do a ← many is_hex_or_colon s; b ← one b'/' a; many is_digit b

unfoldable pub matches_ipv4 : Bytes → Bool
unfolding ipv4 many skip is_digit one finished
matches_ipv4 s = finished (ipv4 s)

unfoldable pub matches_ipv6 : Bytes → Bool
unfolding ipv6 many skip is_digit is_hex_or_colon one finished
matches_ipv6 s = finished (ipv6 s)

some_texts :
    (matches_ipv4 (codes "10.244.1.0/24") ≡ true)
    × (matches_ipv4 (codes "10.244.1.0") ≡ false)
    × (matches_ipv4 (codes "10.244..0/24") ≡ false)
    × (matches_ipv6 (codes "fe80::1/64") ≡ true)
unfolding matches_ipv4 matches_ipv6
some_texts = (refl, refl, refl, refl)

skip-append :
    (t r : Bytes) (c : ℕ) → All IsDigit t → is_digit c ≡ false → skip is_digit (t ++ c ∷ r) ≡ c ∷ r
unfolding skip is_digit
skip-append [] r c h n = ground arith
skip-append (d ∷ t) r c h n = ground (arith, skip-append t r c h.1 n)

many-append :
    (t r : Bytes) (c : ℕ)
    → t ≢ []
    → All IsDigit t
    → is_digit c ≡ false
    → many is_digit (t ++ c ∷ r) ≡ some (c ∷ r)
unfolding many is_digit
many-append [] r c ne h n = absurd (ne refl)
many-append (d ∷ t) r c ne h n = ground (arith, skip-append t r c h.1 n)

skip_all : (t : Bytes) → All IsDigit t → skip is_digit t ≡ []
unfolding skip is_digit
skip_all [] h = refl
skip_all (d ∷ t) h = ground (arith, skip_all t h.1)

many_all : (t : Bytes) → t ≢ [] → All IsDigit t → many is_digit t ≡ some []
unfolding many is_digit
many_all [] ne h = absurd (ne refl)
many_all (d ∷ t) ne h = ground (arith, skip_all t h.1)

-- The two ways in which a number stands in a CIDR text.
number-append :
    (n : ℕ) (r : Bytes) (c : ℕ)
    → is_digit c ≡ false
    → many is_digit (decimal n ++ c ∷ r) ≡ some (c ∷ r)
number-append n r c h = many-append (decimal n) r c (decimal-ne-nil n) (decimal-IsDigit n) h

dot-append : (n : ℕ) (r : Bytes) → many is_digit (decimal n ++ b'.' ∷ r) ≡ some (b'.' ∷ r)
dot-append n r = number-append n r b'.' (unfold is_digit in refl)

slash-append : (n : ℕ) (r : Bytes) → many is_digit (decimal n ++ b'/' ∷ r) ≡ some (b'/' ∷ r)
slash-append n r = number-append n r b'/' (unfold is_digit in refl)

number_end : (n : ℕ) → many is_digit (decimal n) ≡ some []
number_end n = many_all (decimal n) (decimal-ne-nil n) (decimal-IsDigit n)

one-cons : (c : ℕ) (s : Bytes) → one c (c ∷ s) ≡ some s
unfolding one
one-cons c s = ground arith

ipv4-cidr_text : (a p : ℕ) → ipv4 (cidr_text a p) ≡ some []
unfolding ipv4 dotted
ipv4-cidr_text a p = simp (append_assoc, dot-append, slash-append, one-cons, number_end)

-- The text of every IPv4 network matches.
pub matches_ipv4-cidr_text : (a p : ℕ) → matches_ipv4 (cidr_text a p) ≡ true
unfolding matches_ipv4 finished
matches_ipv4-cidr_text a p = ap finished (ipv4-cidr_text a p)
