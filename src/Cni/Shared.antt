-- ===== src/Cni/Shared.antt =====
-- Changing a shared object where its map holds it.
use ohno.Common.{◌≡◌, ◌≢◌, refl, sym, ◌∙◌, [], ◌∷◌, some, inl, inr, Bool-cases, arith}
use ohno.Common.Bytes.{Bytes, eqb, eqb_iff}
use ohno.Common.Exec.{Exec}
use ohno.Registry.{Map, find}
use ohno.Cni.{within, within_option, replace}

module _ {ℓ} {A : Type ℓ} where
  pub find-replace_self :
      (k : Bytes) (a b : A) (m : Map A) → find k m ≡ some a → find k (replace k b m) ≡ some b
  unfolding find replace
  find-replace_self k a b [] h = cc
  find-replace_self k a b ((j, x) ∷ m) h = elim (Bool-cases (eqb j k)) [
    | inl e ↦ rw (e, e) refl
    | inr e ↦ rw (e, e) (find-replace_self k a b m (sym (rw e refl) ∙ h))
  ]

  pub find-replace_ne :
      (k j : Bytes) (b : A) (m : Map A) → k ≢ j → find j (replace k b m) ≡ find j m
  unfolding find replace
  find-replace_ne k j b [] ne = refl
  find-replace_ne k j b ((i, x) ∷ m) ne =
      ground (arith, find-replace_ne k j b m ne, eqb_iff i k, eqb_iff i j)

module _ {ℓ κ} {A : Type ℓ} {B : Type κ} where
  -- The operation runs on the object that is found.
  pub within-find :
      (k : Bytes) (m : Exec A B) (s : Map A) {a : A}
      → find k s ≡ some a
      → within k m s ≡ ((m a).0, replace k (m a).1 s)
  unfolding within within_option
  within-find k m s e = rw e refl
