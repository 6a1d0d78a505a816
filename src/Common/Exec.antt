-- ===== src/Common/Exec.antt =====
-- Code that keeps state and may stop: an action returns its outcome and the state it left.
use mathlib.Core.Path.{◌≡◌, refl, sym, subst}
use mathlib.Core.Bool.{Bool, true, false}
use mathlib.Core.Logic.{◌⊎◌, inl, inr}
use mathlib.Core.Option.{Option, none, some}
use Prim.Native.Nat.{ℕ}
use ohno.Common.Tests.{if◌then◌else◌}

-- How a call ends other than by returning. `assertion` is a failed `OHNO_ASSERT`, which aborts the
-- process in a debug build; `undefined` is undefined behaviour; the others are C++ exceptions.
pub data Fault : Type 0 where
  assertion : Fault
  undefined : Fault
  exception : Fault
  cni_error : ℕ → Fault

pub data Outcome {ℓ} (A : Type ℓ) : Type ℓ where
  ok : A → Outcome A
  fault : Fault → Outcome A

abbrev pub Exec {ℓ κ} : Type ℓ → Type κ → Type (ℓ ⊔ κ)
Exec S A = S → Outcome A × S

module _ {ℓ κ} {S : Type ℓ} {A : Type κ} where
  abbrev pub pure : A → Exec S A
  pure a s = (ok a, s)

  abbrev pub stop : Fault → Exec S A
  stop e s = (fault e, s)

-- A call that reads and writes no state.
abbrev pub lift {ℓ κ} : {S : Type ℓ} {A : Type κ} → Outcome A → Exec S A
lift r s = (r, s)

-- A chain of such calls.
abbrev pub and_then {ℓ κ} : {A : Type ℓ} {B : Type κ} → Outcome A → (A → Outcome B) → Outcome B
and_then (ok a) f = f a
and_then (fault e) f = fault e

module _ {ℓ κ μ} {S : Type ℓ} {A : Type κ} {B : Type μ} where
  abbrev pub continue : Outcome A → (A → Exec S B) → Exec S B
  continue (ok a) f s = f a s
  continue (fault e) f s = (fault e, s)

  infixl 5 ◌>>=◌
  abbrev pub ◌>>=◌ : Exec S A → (A → Exec S B) → Exec S B
  ◌>>=◌ m f s = let r = m s in continue r.0 f r.1

infixl 5 ◌>>◌
abbrev pub ◌>>◌ {ℓ κ} : {S : Type ℓ} {B : Type κ} → Exec S (Unit {0}) → Exec S B → Exec S B
m >> k = m >>= λ _. k

-- `OHNO_ASSERT`
abbrev pub check {ℓ} : {S : Type ℓ} → Bool → Exec S (Unit {0})
check true s = (ok tt, s)
check false s = (fault assertion, s)

-- The call returns `a`, and the state it leaves satisfies `Q`.
pub record Returns {ℓ κ μ} {S : Type ℓ} {A : Type κ} (r : Outcome A × S) (a : A) (Q : S → Type μ)
    : Type (ℓ ⊔ κ ⊔ μ) where
  pub result : r.0 ≡ ok a
  pub after : Q r.1

module _ {ℓ κ μ ν} {S : Type ℓ} {A : Type κ} {B : Type μ} {Q R : S → Type ν} where
  pub Returns-bind :
      (m : Exec S A) (f : A → Exec S B) (s : S) {a : A} {b : B}
      → Returns (m s) a Q
      → ((t : S) → Q t → Returns (f a t) b R)
      → Returns ((m >>= f) s) b R
  Returns-bind m f s {a} {b} h k =
      subst (λ o. Returns (continue o f (m s).1) b R) (sym h.result) (k (m s).1 h.after)

module _ {ℓ κ μ ν} {S : Type ℓ} {A : Type κ} {B : Type μ} {Q : S → Type ν} where
  -- Whatever is said of how the second call ends.
  pub Returns-step {π} :
      (P : Outcome B × S → Type π) (m : Exec S A) (f : A → Exec S B) (s : S) {a : A}
      → Returns (m s) a Q
      → ((t : S) → Q t → P (f a t))
      → P ((m >>= f) s)
  Returns-step P m f s {a} h k =
      subst (λ o. P (continue o f (m s).1)) (sym h.result) (k (m s).1 h.after)

module _ {ℓ κ μ ν} {S : Type ℓ} {A : Type κ} {B : Type μ} {Q : S → Type ν} where
  pub Returns-fault :
      (m : Exec S A) (f : A → Exec S B) (s : S) {a : A} {e : Fault}
      → Returns (m s) a Q
      → ((t : S) → Q t → (f a t).0 ≡ fault e)
      → ((m >>= f) s).0 ≡ fault e
  Returns-fault m f s {a} {e} h k =
      subst (λ o. (continue o f (m s).1).0 ≡ fault e) (sym h.result) (k (m s).1 h.after)

-- The call ends by the fault `e`, and the state it leaves satisfies `Q`.
pub record Throws {ℓ κ μ} {S : Type ℓ} {A : Type κ} (r : Outcome A × S) (e : Fault) (Q : S → Type μ)
    : Type (ℓ ⊔ κ ⊔ μ) where
  pub thrown : r.0 ≡ fault e
  pub after : Q r.1

module _ {ℓ κ μ ν} {S : Type ℓ} {A : Type κ} {B : Type μ} {Q R : S → Type ν} where
  pub Throws-bind :
      (m : Exec S A) (f : A → Exec S B) (s : S) {a : A} {e : Fault}
      → Returns (m s) a Q
      → ((t : S) → Q t → Throws (f a t) e R)
      → Throws ((m >>= f) s) e R
  Throws-bind m f s {a} {e} h k =
      subst (λ o. Throws (continue o f (m s).1) e R) (sym h.result) (k (m s).1 h.after)

module _ {ℓ κ μ ν} {S : Type ℓ} {A : Type κ} {B : Type μ} {R : S → Type ν} where
  -- The first call is the one that throws.
  pub Throws-first :
      (m : Exec S A) (f : A → Exec S B) (s : S) {e : Fault}
      → Throws (m s) e R
      → Throws ((m >>= f) s) e R
  Throws-first m f s {e} h =
      subst (λ o. Throws (continue o f (m s).1) e R) (sym h.thrown)
        (record { thrown = refl; after = h.after })

-- A test whose value is known.
module _ {ℓ κ μ} {S : Type ℓ} {A : Type κ} {R : S → Type μ} where
  pub Returns-then :
      (t : Bool) (m l : Exec S A) (s : S) {a : A}
      → t ≡ true
      → Returns (m s) a R
      → Returns ((if t then m else l) s) a R
  Returns-then true m l s e h = h
  Returns-then false m l s e h = cc

  pub Returns-else :
      (t : Bool) (m l : Exec S A) (s : S) {a : A}
      → t ≡ false
      → Returns (l s) a R
      → Returns ((if t then m else l) s) a R
  Returns-else false m l s e h = h
  Returns-else true m l s e h = cc

-- A value that may be missing: the call throws where it is.
abbrev pub or_throw {ℓ} : {A : Type ℓ} → Option A → Outcome A
or_throw none = fault exception
or_throw (some a) = ok a

-- The call returns `a`, or throws an exception for the reason `U`; the state it leaves satisfies `Q`.
abbrev pub Tries {ℓ κ μ ν} :
    {S : Type ℓ} {A : Type κ} → Outcome A × S → A → (S → Type μ) → Type ν → Type (ℓ ⊔ κ ⊔ μ ⊔ ν)
Tries r a Q U = Returns r a Q ⊎ (Throws r exception Q × U)

pub Tries-after {ℓ κ μ ν} :
    {S : Type ℓ} {A : Type κ} {Q : S → Type μ} {U : Type ν} (r : Outcome A × S) (a : A)
    → Tries r a Q U
    → Q r.1
Tries-after r a (inl h) = h.after
Tries-after r a (inr h) = h.0.after

module _ {ℓ κ μ ν π} {S : Type ℓ} {A : Type κ} {B : Type μ} {Q : S → Type ν} {U : Type π} where
  -- Whatever is said of how two calls end, where the first may throw.
  pub Tries-cases {ρ} :
      (P : Outcome B × S → Type ρ) (m : Exec S A) (f : A → Exec S B) (s : S) {a : A}
      → Tries (m s) a Q U
      → ((t : S) → Q t → P (f a t))
      → ((t : S) → Q t → U → P (fault exception, t))
      → P ((m >>= f) s)
  Tries-cases P m f s {a} (inl h) go thrown =
      subst (λ o. P (continue o f (m s).1)) (sym h.result) (go (m s).1 h.after)
  Tries-cases P m f s {a} (inr h) go thrown =
      subst (λ o. P (continue o f (m s).1)) (sym h.0.thrown) (thrown (m s).1 h.0.after h.1)

-- However the call ends, it keeps `P`.
abbrev pub Keeps {ℓ κ μ} : {S : Type ℓ} {A : Type κ} → (S → Type μ) → Exec S A → Type (ℓ ⊔ μ)
Keeps P m = (s : _) → P s → P (m s).1

module _ {ℓ κ μ} {S : Type ℓ} {A : Type κ} (P : S → Type μ) where
  pub Keeps-bind {ν} :
      {B : Type ν} (m : Exec S A) (f : A → Exec S B)
      → Keeps P m
      → ((a : A) → Keeps P (f a))
      → Keeps P (m >>= f)
  Keeps-bind m f h k s p = go (m s).0 (m s).1 (h s p)
    where
      go : (o : Outcome A) (t : S) → P t → P (continue o f t).1
      go (ok a) t q = k a t q
      go (fault e) t q = q

  pub Keeps-if : (b : Bool) (m n : Exec S A) → Keeps P m → Keeps P n → Keeps P (if b then m else n)
  Keeps-if true m n h k = h
  Keeps-if false m n h k = k
