-- ===== src/Common/Bytes.antt =====
-- Strings as lists of bytes, and their equality.
use Prim.Native.Nat.{ℕ}
use Prim.Native.Char.{code}
use Prim.Native.String.{String}
use mathlib.Core.Path.{◌≡◌, refl}
use mathlib.Core.Logic.{◌≢◌, ◌↔◌, inl, inr}
use mathlib.Core.Bool.{Bool, true, false, ◌&&◌}
use mathlib.Core.List.{List, [], ◌∷◌}
use native.Mathlib.Omega.{arith}
use ohno.Common.Tests.{◌==◌, if◌then◌else◌, Bool-cases}

abbrev pub Bytes : Type 0
Bytes = List ℕ

-- The bytes of a literal.
abbrev pub codes : String → Bytes
codes String.[] = []
codes (String.◌∷◌ c s) = code c ∷ codes s

-- `==` on strings.
unfoldable pub eqb : Bytes → Bytes → Bool
eqb [] [] = true
eqb [] (d ∷ t) = false
eqb (c ∷ s) [] = false
eqb (c ∷ s) (d ∷ t) = (c == d) && eqb s t

pub eqb_sound : (s t : Bytes) → eqb s t ≡ true → s ≡ t
unfolding eqb
eqb_sound [] [] h = refl
eqb_sound [] (d ∷ t) h = cc
eqb_sound (c ∷ s) [] h = cc
eqb_sound (c ∷ s) (d ∷ t) h = ground (arith, eqb_sound s t)

pub eqb_refl : (s : Bytes) → eqb s s ≡ true
unfolding eqb
eqb_refl [] = refl
eqb_refl (c ∷ s) = ground (arith, eqb_refl s)

pub eqb_iff : (s t : Bytes) → (eqb s t ≡ true) ↔ (s ≡ t)
eqb_iff s t = (eqb_sound s t, λ e. rw e (eqb_refl t))

pub eqb_ne : (s t : Bytes) → s ≢ t → eqb s t ≡ false
eqb_ne s t h = elim (Bool-cases (eqb s t)) [ inl e ↦ absurd (h (eqb_sound s t e)) | inr e ↦ e ]

-- `s.empty()`
unfoldable pub empty : Bytes → Bool
empty [] = true
empty (c ∷ s) = false

pub empty_iff : (s : Bytes) → (empty s ≡ true) ↔ (s ≡ [])
unfolding empty
empty_iff s = ground arith

pub empty_ne : (s : Bytes) → s ≢ [] → empty s ≡ false
unfolding empty
empty_ne [] h = absurd (h refl)
empty_ne (c ∷ s) h = refl

-- `std::find(begin, end, x) != end`
unfoldable pub contains : List Bytes → Bytes → Bool
contains [] x = false
contains (y ∷ ys) x = let rest = contains ys x in if eqb y x then true else rest
