-- ===== src/Json.antt =====
-- nlohmann::json as a parameter, and the members that a `from_json` reads from it.
pub mod Plugin
pub mod Kube
use ohno.Common.{ℕ, ◌≡◌, refl, Bool, true, false, List, [], ◌∷◌, Option, none, some, if◌then◌else◌}
use ohno.Common.Bytes.{Bytes}
use ohno.Common.Exec.{Outcome, ok, and_then, or_throw}
use ohno.Registry.{Map, find}

-- `contains`, `at` and the `get` of a type; what does not fit throws. `dump` and `parse` are the
-- texts.
pub record Json (J : Type 0) : Type 0 where
  pub string : Bytes → J
  pub boolean : Bool → J
  pub number : ℕ → J
  pub array : List J → J
  pub object : Map J → J
  pub contains : J → Bytes → Bool
  pub at : J → Bytes → Outcome J
  pub get_string : J → Outcome Bytes
  pub get_boolean : J → Outcome Bool
  pub get_number : J → Outcome ℕ
  pub get_array : J → Outcome (List J)

abbrev pub given_member {ℓ} : {A : Type ℓ} → Option A → Bool
given_member none = false
given_member (some a) = true

-- An object has the members that it is made of, and a value is read as what it was made of.
pub record JsonLaws {J : Type 0} (j : Json J) : Type 0 where
  pub contains_object :
      (members : Map J) (key : Bytes)
      → j.contains (j.object members) key ≡ given_member (find key members)
  pub at_object :
      (members : Map J) (key : Bytes) → j.at (j.object members) key ≡ or_throw (find key members)
  pub string_read : (s : Bytes) → j.get_string (j.string s) ≡ ok s
  pub boolean_read : (b : Bool) → j.get_boolean (j.boolean b) ≡ ok b
  pub number_read : (n : ℕ) → j.get_number (j.number n) ≡ ok n
  pub array_read : (xs : List J) → j.get_array (j.array xs) ≡ ok xs

-- Each element is read; the first that throws ends it.
pub all_read {ℓ κ} : {A : Type ℓ} {B : Type κ} → (A → Outcome B) → List A → Outcome (List B)
all_read read [] = ok []
all_read read (x ∷ xs) =
    let rest = all_read read xs in
    and_then (read x) (λ a. and_then rest (λ others. ok (a ∷ others)))

pub map {ℓ κ} : {A : Type ℓ} {B : Type κ} → (A → B) → List A → List B
map f [] = []
map f (x ∷ xs) = f x ∷ map f xs

pub all_read-map {ℓ κ} :
    {A : Type ℓ} {B : Type κ} (write : B → A) (read : A → Outcome B)
    → ((b : B) → read (write b) ≡ ok b)
    → (bs : List B) → all_read read (map write bs) ≡ ok bs
unfolding all_read map
all_read-map write read h [] = refl
all_read-map write read h (b ∷ bs) = rw (h b, all_read-map write read h bs) refl

module _ {J : Type 0} (j : Json J) where
  -- A member that is there is read, and one that is not keeps its value.
  unfoldable pub member {ℓ} : {A : Type ℓ} → J → Bytes → A → (J → Outcome A) → Outcome A
  member json key old read = if j.contains json key then and_then (j.at json key) read else ok old

  pub array_of {ℓ} : {A : Type ℓ} → (J → Outcome A) → J → Outcome (List A)
  unfolding all_read
  array_of read json = and_then (j.get_array json) (all_read read)

  module _ (laws : JsonLaws j) where
    pub member-object {ℓ} :
        {A : Type ℓ} (members : Map J) (key : Bytes) (value : J) (old a : A) (read : J → Outcome A)
        → find key members ≡ some value
        → read value ≡ ok a
        → member (j.object members) key old read ≡ ok a
    unfolding member
    member-object members key value old a read found reads =
        rw (laws.contains_object members key, found, laws.at_object members key, found, reads) refl

    pub array_of-map {ℓ} :
        {A : Type ℓ} (write : A → J) (read : J → Outcome A)
        → ((a : A) → read (write a) ≡ ok a)
        → (xs : List A) → array_of read (j.array (map write xs)) ≡ ok xs
    unfolding array_of
    array_of-map write read h xs =
        rw (laws.array_read (map write xs), all_read-map write read h xs) refl
