-- ===== src/Helper/Split.antt =====
-- What `helper::split` returns: the pieces between the delimiters, without a last empty piece.
use ohno.Common.{
  ℕ, zero, suc, ◌≤◌, ◌≡◌, refl, ◌≢◌, ◌⊎◌, inl, inr, List, [], ◌∷◌, ◌++◌, arith, length, All, ap,
  sym, ◌∙◌, subst, append_assoc,
}
use ohno.Common.Bytes.{Bytes}
use ohno.Helper.{until, getline, split_loop, split}

abbrev pub Lacks : ℕ → Bytes → Type 0
Lacks d = All (λ c. c ≢ d)

-- The pieces with one delimiter between each two.
unfoldable pub join : List Bytes → ℕ → Bytes
join [] d = []
join (x ∷ []) d = x
join (x ∷ y ∷ r) d = x ++ d ∷ join (y ∷ r) d

-- No piece, or a last piece that is not empty.
abbrev pub EndsFull : List Bytes → Type 0
EndsFull [] = Unit {0}
EndsFull (x ∷ []) = x ≢ []
EndsFull (x ∷ y ∷ r) = EndsFull (y ∷ r)

pub until-append : (d : ℕ) (t r : Bytes) → Lacks d t → until d (t ++ d ∷ r) ≡ (t, r)
unfolding until
until-append d [] r h = ground arith
until-append d (c ∷ t) r h = ground (arith, until-append d t r h.1)

until_end : (d : ℕ) (t : Bytes) → Lacks d t → until d t ≡ (t, [])
unfolding until
until_end d [] h = refl
until_end d (c ∷ t) h = ground (arith, until_end d t h.1)

until-Lacks : (d : ℕ) (s : Bytes) → Lacks d (until d s).0
unfolding until
until-Lacks d [] = tt
until-Lacks d (c ∷ s) = ground (arith, until-Lacks d s)

until-length : (d c : ℕ) (s : Bytes) → length (until d (c ∷ s)).1 ≤ length s
unfolding until
until-length d c [] = ground arith
until-length d c (e ∷ s) = ground (arith, until-length d e s)

-- Any fuel that covers the text gives the same pieces.
loop_fuel :
    (f g d : ℕ) (s : Bytes) → length s ≤ f → length s ≤ g → split_loop f d s ≡ split_loop g d s
unfolding split_loop getline
loop_fuel zero zero d s hf hg = refl
loop_fuel zero (suc g) d [] hf hg = refl
loop_fuel zero (suc g) d (c ∷ s) hf hg = absurd (omega arith)
loop_fuel (suc f) zero d [] hf hg = refl
loop_fuel (suc f) zero d (c ∷ s) hf hg = absurd (omega arith)
loop_fuel (suc f) (suc g) d [] hf hg = refl
loop_fuel (suc f) (suc g) d (c ∷ s) hf hg =
    ap (λ r. (until d (c ∷ s)).0 ∷ r)
      (loop_fuel f g d (until d (c ∷ s)).1 (omega (arith, until-length d c s))
        (omega (arith, until-length d c s)))

pub split-nil : (d : ℕ) → split [] d ≡ []
unfolding split split_loop
split-nil d = refl

split_step :
    (d c : ℕ) (s : Bytes) → split (c ∷ s) d ≡ (until d (c ∷ s)).0 ∷ split (until d (c ∷ s)).1 d
unfolding split split_loop getline
split_step d c s =
    ap (λ r. (until d (c ∷ s)).0 ∷ r)
      (loop_fuel (length s) (length (until d (c ∷ s)).1) d (until d (c ∷ s)).1 (until-length d c s)
        (omega arith))

pub split-last : (d : ℕ) (t : Bytes) → t ≢ [] → Lacks d t → split t d ≡ t ∷ []
split-last d [] ne h = absurd (ne refl)
split-last d (c ∷ t) ne h = rw (split_step d c t, until_end d (c ∷ t) h) (rw split-nil)

pub split-append : (d : ℕ) (t r : Bytes) → Lacks d t → split (t ++ d ∷ r) d ≡ t ∷ split r d
split-append d [] r h = rw (split_step d d r, until-append d [] r h)
split-append d (c ∷ t) r h = rw (split_step d c (t ++ d ∷ r), until-append d (c ∷ t) r h)

-- Splitting undoes joining, if no piece holds the delimiter and the last one is not empty.
pub split-join :
    (d : ℕ) (ps : List Bytes) → All (Lacks d) ps → EndsFull ps → split (join ps d) d ≡ ps
unfolding join
split-join d [] h e = split-nil d
split-join d (x ∷ []) h e = split-last d x e h.0
split-join d (x ∷ y ∷ r) h e =
    rw (split-append d x (join (y ∷ r) d) h.0, split-join d (y ∷ r) h.1 e)

-- Either no delimiter was met, or the text is the piece, the delimiter and the rest.
until_spells :
    (d : ℕ) (s : Bytes)
    → ((s ≡ (until d s).0) × ((until d s).1 ≡ [])) ⊎ (s ≡ (until d s).0 ++ d ∷ (until d s).1)
unfolding until
until_spells d [] = inl (refl, refl)
until_spells d (c ∷ s) = ground (arith, until_spells d s)

-- The pieces hold no delimiter, and joined they spell the text up to one delimiter at its end.
abbrev pub Spells : ℕ → Bytes → List Bytes → Type 0
Spells d s ps = All (Lacks d) ps × ((join ps d ≡ s) ⊎ (join ps d ++ d ∷ [] ≡ s))

Spells-cons :
    (d : ℕ) (t r : Bytes) (ps : List Bytes)
    → Lacks d t
    → (ps ≡ [] → r ≡ [])
    → Spells d r ps
    → Spells d (t ++ d ∷ r) (t ∷ ps)
unfolding join
Spells-cons d t r [] h e (l, s) = ((h, tt), inr (rw (e refl)))
Spells-cons d t r (p ∷ ps) h e (l, inl s) = ((h, l), inl (ap (λ x. t ++ d ∷ x) s))
Spells-cons d t r (p ∷ ps) h e (l, inr s) =
    ((h, l), inr (append_assoc t _ _ ∙ ap (λ x. t ++ d ∷ x) s))

split-eq-nil : (d : ℕ) (s : Bytes) → split s d ≡ [] → s ≡ []
split-eq-nil d [] h = refl
split-eq-nil d (c ∷ s) h = cc (split_step d c s)

split-Spells_fuel : (f d : ℕ) (s : Bytes) → length s ≤ f → Spells d s (split s d)
unfolding join
split-Spells_fuel f d [] h = rw split-nil (tt, inl refl)
split-Spells_fuel zero d (c ∷ s) h = absurd (omega arith)
split-Spells_fuel (suc f) d (c ∷ s) h =
    let t = (until d (c ∷ s)).0 in
    let r = (until d (c ∷ s)).1 in
    let rest = split-Spells_fuel f d r (omega (arith, until-length d c s)) in
    rw (split_step d c s) (elim (until_spells d (c ∷ s)) [
      | inl (e, n) ↦ rw n (rw split-nil ((until-Lacks d (c ∷ s), tt), inl (sym e)))
      | inr e ↦
          subst (λ x. Spells d x (t ∷ split r d)) (sym e)
            (Spells-cons d t r (split r d) (until-Lacks d (c ∷ s)) (split-eq-nil d r) rest)
    ])

-- For every text: no piece holds the delimiter, and the pieces joined by it are the text, or the
-- text without a delimiter at its end.
pub split-Spells : (s : Bytes) (d : ℕ) → Spells d s (split s d)
split-Spells s d = split-Spells_fuel (length s) d s (omega arith)
