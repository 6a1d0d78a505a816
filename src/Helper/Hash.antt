-- ===== src/Helper/Hash.antt =====
-- src/helper/hash.cc: a 32-bit FNV-1a hash, and names of at most `IFNAMSIZ - 1` characters.
use Prim.Native.Nat.{bit_xor}
use ohno.Common.{
  ℕ, zero, suc, ◌+◌, ◌*◌, ◌/◌, ◌%◌, ◌-◌, ◌^◌, ◌≤◌, ◌<◌, ◌≡◌, refl, [], ◌∷◌, ◌++◌, arith, length,
  ◌&&◌, All, leb, ltb, if◌then◌else◌, inl, inr, ◌⊎◌, Bool-cases,
}
use ohno.Common.Bytes.{Bytes, codes}

abbrev pub ifnamsiz : ℕ
ifnamsiz = 16

-- One round: `hash ^= c; hash *= FNV_prime`, in `uint32_t`.
hash_round : ℕ → ℕ → ℕ
hash_round hash c = (bit_xor hash (c % 256) * 16777619) % 2 ^ 32

hash_loop : ℕ → Bytes → ℕ
hash_loop hash [] = hash
hash_loop hash (c ∷ s) = hash_loop (hash_round hash c) s

unfoldable pub short_hash : Bytes → ℕ
unfolding hash_loop hash_round
short_hash s = hash_loop 2166136261 s

pub hex_digit : ℕ → ℕ
hex_digit n = if ltb n 10 then b'0' + n else b'a' + (n - 10)

-- `%06x`: at least six digits, so a number above `0xffffff` prints seven or eight.
hex_loop : ℕ → ℕ → ℕ → Bytes → Bytes
hex_loop zero width n out = out
hex_loop (suc f) width n out =
    let rest = hex_loop f (width - 1) (n / 16) (hex_digit (n % 16) ∷ out) in
    if leb n 0 && leb width 0 then out else rest

-- `snprintf` into a buffer of seven bytes keeps the first six characters.
pub take : ℕ → Bytes → Bytes
take zero s = []
take (suc n) [] = []
take (suc n) (c ∷ s) = c ∷ take n s

unfoldable pub get_short_hash : Bytes → Bytes
unfolding hex_loop hex_digit take
get_short_hash long_name =
    if leb (length long_name) (ifnamsiz - 1)
    then long_name
    else take 6 (hex_loop 8 6 (short_hash long_name) [])

unfoldable pub veth_name : Bytes → Bytes
veth_name container_id = codes "veth_" ++ get_short_hash container_id

abbrev pub IsHex : ℕ → Type 0
IsHex c = ((b'0' ≤ c) × (c ≤ b'9')) ⊎ ((b'a' ≤ c) × (c ≤ b'f'))

hex_digit-IsHex : (n : ℕ) → n < 16 → IsHex (hex_digit n)
unfolding hex_digit
hex_digit-IsHex n h = ground arith

hex_loop-IsHex : (f w n : ℕ) (out : Bytes) → All IsHex out → All IsHex (hex_loop f w n out)
unfolding hex_loop
hex_loop-IsHex zero w n out h = h
hex_loop-IsHex (suc f) w n out h = ground (
  arith,
  hex_loop-IsHex f (w - 1) (n / 16) (hex_digit (n % 16) ∷ out)
      (hex_digit-IsHex (n % 16) (omega arith), h),
)

hex_loop-length : (f w n : ℕ) (out : Bytes) → w ≤ f → length out + w ≤ length (hex_loop f w n out)
unfolding hex_loop
hex_loop-length zero w n out h = omega arith
hex_loop-length (suc f) w n out h =
    ground (arith, hex_loop-length f (w - 1) (n / 16) (hex_digit (n % 16) ∷ out))

take-IsHex : (n : ℕ) (s : Bytes) → All IsHex s → All IsHex (take n s)
unfolding take
take-IsHex zero s h = tt
take-IsHex (suc n) [] h = tt
take-IsHex (suc n) (c ∷ s) h = (h.0, take-IsHex n s h.1)

take-length : (n : ℕ) (s : Bytes) → n ≤ length s → length (take n s) ≡ n
unfolding take
take-length zero s h = refl
take-length (suc n) [] h = absurd (omega arith)
take-length (suc n) (c ∷ s) h = omega (arith, take-length n s)

-- A name of at most 15 characters is kept; a longer one becomes exactly six hexadecimal digits.
pub get_short_hash_lem :
    (s : Bytes)
    → ((length s ≤ 15) × (get_short_hash s ≡ s))
      ⊎ ((15 < length s) × (length (get_short_hash s) ≡ 6) × All IsHex (get_short_hash s))
unfolding get_short_hash
get_short_hash_lem s = elim (Bool-cases (leb (length s) 15)) [
  | inl e ↦ inl (ground arith, rw e)
  | inr e ↦
      let printed = hex_loop 8 6 (short_hash s) [] in
      inr (
        ground arith,
        rw e (take-length 6 printed (omega (arith, hex_loop-length 8 6 (short_hash s) []))),
        rw e (take-IsHex 6 printed (hex_loop-IsHex 8 6 (short_hash s) [] tt)),
      )
]

hashed : get_short_hash (codes "0123456789abcdef") ≡ codes "87bc33"
unfolding get_short_hash short_hash
hashed = refl
