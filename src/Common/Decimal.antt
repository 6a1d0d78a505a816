-- ===== src/Common/Decimal.antt =====
-- Numbers in decimal: `fmt::format("{}", n)`, and the reading of digits.
use Prim.Native.Nat.{ℕ, zero, suc, ◌+◌, ◌-◌, ◌*◌, ◌/◌, ◌%◌, ◌^◌, ◌≤◌, ◌<◌}
use mathlib.Core.Path.{◌≡◌, refl}
use mathlib.Core.Logic.{◌≢◌}
use mathlib.Core.List.{[], ◌∷◌, cons-ne-nil}
use native.Mathlib.Omega.{arith}
use native.Mathlib.Nat.{pow-suc}
use ohno.Common.Tests.{ltb, if◌then◌else◌}
use ohno.Common.Lists.{All}
use ohno.Common.Bytes.{Bytes, codes}

-- The digits of a number below the fuel-th power of ten, in front of `out`.
digits : ℕ → ℕ → Bytes → Bytes
digits zero n out = out
digits (suc f) n out =
    let d = (b'0' + n % 10) ∷ out in let rest = digits f (n / 10) d in if ltb n 10 then d else rest

-- A number in decimal; ten digits hold every 32-bit number.
unfoldable pub decimal : ℕ → Bytes
unfolding digits
decimal n = digits 10 n []

-- The number that digits spell behind `n`.
unfoldable pub read : ℕ → Bytes → ℕ
read n [] = n
read n (c ∷ s) = read (n * 10 + (c - b'0')) s

abbrev pub IsDigit : ℕ → Type 0
IsDigit c = (b'0' ≤ c) × (c ≤ b'9')

digits-IsDigit : (f n : ℕ) (out : Bytes) → All IsDigit out → All IsDigit (digits f n out)
unfolding digits
digits-IsDigit zero n out h = h
digits-IsDigit (suc f) n out h = ground (arith, digits-IsDigit f (n / 10) ((b'0' + n % 10) ∷ out))

pub decimal-IsDigit : (n : ℕ) → All IsDigit (decimal n)
unfolding decimal
decimal-IsDigit n = digits-IsDigit 10 n [] tt

digits-ne-nil : (f n : ℕ) (out : Bytes) → out ≢ [] → digits f n out ≢ []
unfolding digits
digits-ne-nil zero n out h = h
digits-ne-nil (suc f) n out h =
    ground
      (arith, digits-ne-nil f (n / 10) ((b'0' + n % 10) ∷ out), cons-ne-nil (b'0' + n % 10) out)

pub decimal-ne-nil : (n : ℕ) → decimal n ≢ []
unfolding decimal
decimal-ne-nil n = digits_full n
  where
    digits_full : (n : ℕ) → digits 10 n [] ≢ []
    digits_full n =
        ground
          (arith, digits-ne-nil 9 (n / 10) ((b'0' + n % 10) ∷ []), cons-ne-nil (b'0' + n % 10) [])

read-digits : (f n : ℕ) (out : Bytes) → n < 10 ^ f → read 0 (digits f n out) ≡ read n out
unfolding digits read
read-digits zero n out h = rw (n_zero h)
  where
    n_zero : n < 1 → n ≡ 0
    n_zero p = omega arith
read-digits (suc f) n out h =
    ground (arith, read-digits f (n / 10) ((b'0' + n % 10) ∷ out), pow-suc 10 f)

-- A 32-bit number is read back from its decimal digits.
pub read-decimal : (n : ℕ) → n < 2 ^ 32 → read 0 (decimal n) ≡ n
unfolding decimal read
read-decimal n h = read-digits 10 n [] (omega arith)

some_numbers : decimal 4294967295 ≡ codes "4294967295"
unfolding decimal
some_numbers = refl
