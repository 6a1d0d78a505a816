-- ===== src/Net/Addr/Parsed.antt =====
-- Addresses that are built from texts, and the texts that they return.
use mathlib.Core.List.{append-ne-nil_of_right_ne-nil, cons-ne-nil}
use ohno.Common.{
  ℕ, ◌+◌, ◌*◌, ◌-◌, ◌/◌, ◌%◌, ◌^◌, ◌<◌, ◌≡◌, ◌≢◌, refl, ap, ◌∙◌, arith, [], ◌∷◌, ◌++◌, none, some,
  All, All-append,
}
use ohno.Common.Bytes.{Bytes, empty_ne}
use ohno.Common.Decimal.{decimal, read, read-decimal, IsDigit, decimal-IsDigit, decimal-ne-nil}
use ohno.Common.Exec.{ok}
use ohno.Helper.Split.{Lacks}
use ohno.Net.Boost.{Boost, BoostLaws, dotted, cidr_text}
use ohno.Net.Cidr.{matches_ipv4-cidr_text}
use ohno.Net.Subnet.{ipv4}
use ohno.Net.Addr.{
  cut, stoi, stoi_plus, stoi_digits, starts_digit, is_space, classify, new, get_addr, get_addr_cidr,
}

cut-append : (s t : Bytes) → Lacks b'/' s → cut (s ++ b'/' ∷ t) ≡ some (s, t)
unfolding cut
cut-append [] t h = refl
cut-append (c ∷ s) t h = ground (arith, cut-append s t h.1)

cut_none : (s : Bytes) → Lacks b'/' s → cut s ≡ none
unfolding cut
cut_none [] h = refl
cut_none (c ∷ s) h = ground (arith, cut_none s h.1)

stoi_digits-read : (s : Bytes) (n : ℕ) → All IsDigit s → stoi_digits s n ≡ read n s
unfolding stoi_digits read
stoi_digits-read [] n h = refl
stoi_digits-read (c ∷ s) n h = ground (arith, stoi_digits-read s (n * 10 + (c - b'0')) h.1)

stoi-digits : (s : Bytes) → s ≢ [] → All IsDigit s → read 0 s < 2 ^ 31 → stoi s ≡ some (read 0 s)
unfolding stoi stoi_plus starts_digit is_space
stoi-digits [] ne h lt = absurd (ne refl)
stoi-digits (c ∷ s) ne h lt = ground (arith, stoi_digits-read (c ∷ s) 0 h)

pub stoi-decimal : (p : ℕ) → p < 2 ^ 31 → stoi (decimal p) ≡ some p
stoi-decimal p h =
    let e = read-decimal p (omega arith) in
    stoi-digits (decimal p) (decimal-ne-nil p) (decimal-IsDigit p) (omega (arith, e)) ∙ ap some e

digits-Lacks_slash : (s : Bytes) → All IsDigit s → Lacks b'/' s
digits-Lacks_slash [] h = tt
digits-Lacks_slash (c ∷ s) h = ((λ e. omega (arith, e)), digits-Lacks_slash s h.1)

pub dotted-Lacks_slash : (a : ℕ) → Lacks b'/' (dotted a)
unfolding dotted
dotted-Lacks_slash a =
    let P = λ (c : ℕ). c ≢ b'/' in
    let dot = λ (n : ℕ) (r : Bytes) (h : Lacks b'/' r).
      All-append P (decimal n) (b'.' ∷ r) (digits-Lacks_slash (decimal n) (decimal-IsDigit n))
        ((λ e. omega (arith, e)), h) in
    dot _ _ (dot _ _ (dot _ _ (digits-Lacks_slash _ (decimal-IsDigit (a % 256)))))

dotted-ne-nil : (a : ℕ) → dotted a ≢ []
unfolding dotted
dotted-ne-nil a = append-ne-nil_of_right_ne-nil (decimal (a / 2 ^ 24)) (cons-ne-nil b'.' _)

cidr_text-ne-nil : (a p : ℕ) → cidr_text a p ≢ []
cidr_text-ne-nil a p = append-ne-nil_of_right_ne-nil (dotted a) (cons-ne-nil b'/' (decimal p))

module _ (b : Boost) (laws : BoostLaws b) where
  classify-cidr_text :
      (a p : ℕ)
      → a < 2 ^ 32
      → classify b (cidr_text a p) (dotted a) p
        ≡ record { address_v4 = a; ipversion = ipv4; prefix = p }
  unfolding classify
  classify-cidr_text a p ha = rw (matches_ipv4-cidr_text a p, laws.address_parsed a ha)

  pub new-cidr_text :
      (a p : ℕ)
      → a < 2 ^ 32
      → p < 2 ^ 31
      → new b (cidr_text a p) ≡ record { address_v4 = a; ipversion = ipv4; prefix = p }
  unfolding new
  new-cidr_text a p ha hp =
      rw
        (
          empty_ne (cidr_text a p) (cidr_text-ne-nil a p),
          cut-append (dotted a) (decimal p) (dotted-Lacks_slash a),
          stoi-decimal p hp,
        )
        (classify-cidr_text a p ha)

  new-dotted :
      (a : ℕ)
      → a < 2 ^ 32
      → new b (dotted a) ≡ record { address_v4 = a; ipversion = ipv4; prefix = 32 }
  unfolding new
  new-dotted a ha =
      rw (empty_ne (dotted a) (dotted-ne-nil a), cut_none (dotted a) (dotted-Lacks_slash a))
        (classify-cidr_text a 32 ha)

  pub text_of_parsed :
      (a p : ℕ)
      → a < 2 ^ 32
      → get_addr_cidr b (record { address_v4 = a; ipversion = ipv4; prefix = p })
        ≡ ok (cidr_text a p)
  unfolding get_addr_cidr
  text_of_parsed a p ha = rw (laws.address_text a ha)

  pub get_addr-parsed :
      (a p : ℕ)
      → a < 2 ^ 32
      → get_addr b (record { address_v4 = a; ipversion = ipv4; prefix = p }) ≡ ok (dotted a)
  unfolding get_addr
  get_addr-parsed a p ha = rw (laws.address_text a ha) refl

  -- The CIDR text of a 32-bit address and a prefix below 2 ^ 31 is returned as it was given, and an
  -- address without a prefix gets the prefix 32.
  pub get_addr_cidr-new :
      (a p : ℕ)
      → a < 2 ^ 32
      → p < 2 ^ 31
      → (get_addr_cidr b (new b (cidr_text a p)) ≡ ok (cidr_text a p))
        × (get_addr_cidr b (new b (dotted a)) ≡ ok (cidr_text a 32))
  get_addr_cidr-new a p ha hp = (
    ap (get_addr_cidr b) (new-cidr_text a p ha hp) ∙ text_of_parsed a p ha,
    ap (get_addr_cidr b) (new-dotted a ha) ∙ text_of_parsed a 32 ha,
  )
