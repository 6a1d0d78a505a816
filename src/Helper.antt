-- ===== src/Helper.antt =====
-- src/helper/string.cc: `helper::split`, a loop of `std::getline` over the string.
pub mod Split
pub mod Hash
use ohno.Common.{
  ℕ, zero, suc, ◌≡◌, refl, List, [], ◌∷◌, Option, none, some, length, ◌==◌, if◌then◌else◌,
}
use ohno.Common.Bytes.{Bytes, codes}

-- The characters up to the delimiter, and what is behind it.
unfoldable pub until : ℕ → Bytes → Bytes × Bytes
until d [] = ([], [])
until d (c ∷ s) = let r = until d s in if c == d then ([], s) else (c ∷ r.0, r.1)

-- `std::getline`: at the end of the input it extracts nothing and fails.
getline : ℕ → Bytes → Option (Bytes × Bytes)
getline d [] = none
getline d (c ∷ s) = some (until d (c ∷ s))

-- The `while` loop; each round takes at least one character.
split_loop : ℕ → ℕ → Bytes → List Bytes
split_loop zero d s = []
split_loop (suc f) d s = elim (getline d s) [ none ↦ [] | some (t, r) ↦ t ∷ split_loop f d r ]

pub split : Bytes → ℕ → List Bytes
split s d = split_loop (length s) d s

tokens : split (codes "a,,b,") b',' ≡ codes "a" ∷ [] ∷ codes "b" ∷ []
unfolding split split_loop getline until
tokens = refl
