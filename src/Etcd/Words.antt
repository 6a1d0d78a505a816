-- ===== src/Etcd/Words.antt =====
-- The texts that the program sends through a shell command line unchanged.
use ohno.Common.{
  ℕ, ◌≡◌, ◌≢◌, refl, Bool, true, ◌&&◌, ◌||◌, List, [], ◌∷◌, ◌++◌, arith, leb, ◌==◌, All, All-append,
  and_true, Bool, ap, sym, ◌∙◌, append_assoc,
}
use ohno.Common.Bytes.{Bytes, codes}
use ohno.Helper.Split.{Lacks, join, EndsFull}

-- Letters, digits and `, - . / : _`.
abbrev pub is_word_char : ℕ → Bool
is_word_char c =
    (leb b',' c && leb c b':')
    || (leb b'A' c && leb c b'Z')
    || (c == b'_')
    || (leb b'a' c && leb c b'z')

abbrev pub IsWordChar : ℕ → Type 0
IsWordChar c = is_word_char c ≡ true

abbrev pub IsWord : Bytes → Type 0
IsWord w = (w ≢ []) × All IsWordChar w

-- One value of a list of values: a word with no comma.
abbrev pub IsItemChar : ℕ → Type 0
IsItemChar c = (is_word_char c ≡ true) × (c ≢ b',')

abbrev pub IsItem : Bytes → Type 0
IsItem x = (x ≢ []) × All IsItemChar x

-- A name that stands between two slashes of a key.
abbrev pub IsNameChar : ℕ → Type 0
IsNameChar c = (is_word_char c ≡ true) × (c ≢ b',') × (c ≢ b'/')

abbrev pub IsName : Bytes → Type 0
IsName x = (x ≢ []) × All IsNameChar x

abbrev pub all_word_chars : Bytes → Bool
all_word_chars [] = true
all_word_chars (c ∷ s) = is_word_char c && all_word_chars s

-- A literal is checked by evaluation.
pub literal-IsWordChar : (s : Bytes) → all_word_chars s ≡ true → All IsWordChar s
literal-IsWordChar [] h = tt
literal-IsWordChar (c ∷ s) h =
    let (hc, hs) = and_true (is_word_char c) (all_word_chars s) h in (hc, literal-IsWordChar s hs)

-- A key of the program: `/ohno` and more characters of a word.
pub data IsKey : Bytes → Type 0 where
  key : (r : Bytes) → All IsWordChar r → IsKey (codes "/ohno" ++ r)

pub IsKey-IsWord : (k : Bytes) → IsKey k → IsWord k
IsKey-IsWord k (key r h) = ((λ e. cc), (refl, (refl, (refl, (refl, (refl, h))))))

module _ {P Q : ℕ → Type 0} (f : (c : ℕ) → P c → Q c) where
  pub All-imp : (x : Bytes) → All P x → All Q x
  All-imp [] h = tt
  All-imp (c ∷ x) h = (f c h.0, All-imp x h.1)

pub IsItem-IsWord : (x : Bytes) → IsItem x → IsWord x
IsItem-IsWord x h = (h.0, All-imp (λ c p. p.0) x h.1)

pub IsName-IsItem : (x : Bytes) → IsName x → IsItem x
IsName-IsItem x h = (h.0, All-imp (λ c p. (p.0, p.1)) x h.1)

pub IsItem-Lacks_comma : (x : Bytes) → IsItem x → Lacks b',' x
IsItem-Lacks_comma x h = All-imp (λ c p. p.1) x h.1

pub IsName-Lacks_slash : (x : Bytes) → IsName x → Lacks b'/' x
IsName-Lacks_slash x h = All-imp (λ c p. p.2) x h.1

not_newline : (c : ℕ) → is_word_char c ≡ true → c ≢ 10
not_newline c h e = ground arith

pub IsWord-Lacks_newline : (x : Bytes) → All IsWordChar x → Lacks 10 x
IsWord-Lacks_newline x h = All-imp not_newline x h

pub Items-Lacks_comma : (xs : List Bytes) → All IsItem xs → All (Lacks b',') xs
Items-Lacks_comma [] h = tt
Items-Lacks_comma (x ∷ xs) h = (IsItem-Lacks_comma x h.0, Items-Lacks_comma xs h.1)

pub Items-EndsFull : (xs : List Bytes) → All IsItem xs → EndsFull xs
Items-EndsFull [] h = tt
Items-EndsFull (x ∷ []) h = h.0.0
Items-EndsFull (x ∷ y ∷ r) h = Items-EndsFull (y ∷ r) h.1

pub join-IsWordChar : (xs : List Bytes) → All IsItem xs → All IsWordChar (join xs b',')
unfolding join
join-IsWordChar [] h = tt
join-IsWordChar (x ∷ []) h = (IsItem-IsWord x h.0).1
join-IsWordChar (x ∷ y ∷ r) h =
    All-append IsWordChar x (b',' ∷ join (y ∷ r) b',') (IsItem-IsWord x h.0).1
      (refl, join-IsWordChar (y ∷ r) h.1)

pub join-ne-nil : (x : Bytes) (xs : List Bytes) → IsItem x → join (x ∷ xs) b',' ≢ []
unfolding join
join-ne-nil x [] h e = h.0 e
join-ne-nil [] (y ∷ r) h e = h.0 refl
join-ne-nil (c ∷ x) (y ∷ r) h e = cc

pub join-concat :
    (x : Bytes) (xs : List Bytes) (v : Bytes)
    → join (x ∷ (xs ++ v ∷ [])) b',' ≡ join (x ∷ xs) b',' ++ b',' ∷ v
unfolding join
join-concat x [] v = refl
join-concat x (y ∷ r) v =
    ap (λ t. x ++ b',' ∷ t) (join-concat y r v)
    ∙ sym (append_assoc x (b',' ∷ join (y ∷ r) b',') (b',' ∷ v))
