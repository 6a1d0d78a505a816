-- ===== src/Etcd/Values.antt =====
-- Lists of values: membership, removal, and lists without repetition.
use ohno.Common.{
  suc, ◌≤◌, ◌≡◌, ◌≢◌, refl, ap, fun_ext, true, false, List, [], ◌∷◌, ◌++◌, arith, length,
  Bool-cases, inl, inr,
}
use ohno.Common.Bytes.{Bytes, eqb, eqb_iff, eqb_refl, eqb_sound, contains}
use ohno.Etcd.Client.{Items, update, update_self, without}

pub contains-concat : (xs : List Bytes) (x : Bytes) → contains (xs ++ x ∷ []) x ≡ true
unfolding contains
contains-concat [] x = ground (arith, eqb_refl x)
contains-concat (y ∷ xs) x = ground (arith, contains-concat xs x)

pub contains-append_false :
    (xs : List Bytes) (x y : Bytes)
    → contains xs y ≡ false
    → x ≢ y
    → contains (xs ++ x ∷ []) y ≡ false
unfolding contains
contains-append_false [] x y h ne = ground (arith, eqb_iff x y)
contains-append_false (z ∷ xs) x y h ne = ground (arith, contains-append_false xs x y)

pub without-fresh : (x : Bytes) (xs : List Bytes) → contains xs x ≡ false → without x xs ≡ xs
unfolding without contains
without-fresh x [] h = refl
without-fresh x (y ∷ xs) h = ground (arith, without-fresh x xs)

pub without-concat :
    (x : Bytes) (xs : List Bytes) → contains xs x ≡ false → without x (xs ++ x ∷ []) ≡ xs
unfolding without contains
without-concat x [] h = ground (arith, eqb_refl x)
without-concat x (y ∷ xs) h = ground (arith, without-concat x xs)

pub contains-without_self : (x : Bytes) (xs : List Bytes) → contains (without x xs) x ≡ false
unfolding without contains
contains-without_self x [] = refl
contains-without_self x (y ∷ xs) = ground (arith, contains-without_self x xs)

pub contains-without_ne :
    (x y : Bytes) (xs : List Bytes) → x ≢ y → contains (without x xs) y ≡ contains xs y
unfolding without contains
contains-without_ne x y [] ne = refl
contains-without_ne x y (z ∷ xs) ne =
    ground (arith, contains-without_ne x y xs ne, eqb_iff z x, eqb_iff z y)

length-without-le : (x : Bytes) (xs : List Bytes) → length (without x xs) ≤ length xs
unfolding without
length-without-le x [] = omega arith
length-without-le x (y ∷ xs) = ground (arith, length-without-le x xs)

pub length-without :
    (x : Bytes) (xs : List Bytes) → contains xs x ≡ true → suc (length (without x xs)) ≤ length xs
unfolding without contains
length-without x [] h = cc
length-without x (y ∷ xs) h = ground (arith, length-without x xs, length-without-le x xs)

-- No value occurs twice.
abbrev pub IsDistinct : List Bytes → Type 0
IsDistinct [] = Unit {0}
IsDistinct (x ∷ xs) = (contains xs x ≡ false) × IsDistinct xs

pub concat-IsDistinct :
    (xs : List Bytes) (x : Bytes)
    → contains xs x ≡ false
    → IsDistinct xs
    → IsDistinct (xs ++ x ∷ [])
unfolding contains
concat-IsDistinct [] x h d = (refl, tt)
concat-IsDistinct (y ∷ xs) x h d =
    ground (arith, concat-IsDistinct xs x, contains-append_false xs x y d.0, eqb_iff y x)

contains-without-false :
    (x y : Bytes) (xs : List Bytes) → contains xs y ≡ false → contains (without x xs) y ≡ false
unfolding without contains
contains-without-false x y [] h = refl
contains-without-false x y (z ∷ xs) h = ground (arith, contains-without-false x y xs)

pub without-IsDistinct : (x : Bytes) (xs : List Bytes) → IsDistinct xs → IsDistinct (without x xs)
unfolding without
without-IsDistinct x [] d = tt
without-IsDistinct x (y ∷ xs) d =
    ground (arith, without-IsDistinct x xs d.1, contains-without-false x y xs d.0)

-- Writing a key back to what it held undoes a write.
pub update-update_back :
    (f : Items) (k : Bytes) (xs : List Bytes) → update (update f k xs) k (f k) ≡ f
unfolding update
update-update_back f k xs =
    fun_ext
      λ j. elim (Bool-cases (eqb k j)) [ inl e ↦ rw e (ap f (eqb_sound k j e)) | inr e ↦ rw e refl ]

-- A value that a list did not hold, put at its end and removed.
pub taken_back :
    (f : Items) (a x : Bytes)
    → contains (f a) x ≡ false
    → (let g = update f a (f a ++ x ∷ []) in update g a (without x (g a))) ≡ f
taken_back f a x fresh =
    rw (update_self f a (f a ++ x ∷ []), without-concat x (f a) fresh) (update-update_back f a _)
