-- ===== src/Tests/Values.antt =====
-- A concrete client, whose state is the lists themselves, and the names of the examples.
use ohno.Common.{ℕ, ◌≡◌, refl, Bool, true, not, ◌&&◌, ◌==◌, [], ◌∷◌, ◌++◌, arith, and_true, All}
use ohno.Common.Bytes.{Bytes}
use ohno.Common.Exec.{ok}
use ohno.Helper.Split.{join}
use ohno.Etcd.Words.{IsName, IsNameChar, is_word_char}
use ohno.Etcd.Client.{EtcdClient, EtcdContract, Items, update, without, At}

unfoldable pub lists : EtcdClient Items
lists = record {
  test = λ f. (ok true, f);
  put = λ k v f. (ok true, update f k (v ∷ []));
  append = λ k v f. (ok true, update f k (f k ++ v ∷ []));
  get = λ k f. (ok (true, join (f k) b','), f);
  del = λ k f. (ok true, update f k []);
  del_value = λ k v f. (ok true, update f k (without v (f k)));
  list = λ k f. (ok (true, f k), f);
}

unfoldable pub lists-EtcdContract : EtcdContract lists
unfolding lists
lists-EtcdContract = record {
  Up = λ f. Unit {0};
  items = λ f. f;
  test_up = λ s up. record { result = refl; after = (tt, refl) };
  get_up = λ k s isk up. record { result = refl; after = (tt, refl) };
  list_up = λ k s isk up. record { result = refl; after = (tt, refl) };
  put_up = λ k v s isk hv up. record { result = refl; after = (tt, refl) };
  append_up = λ k v s isk hv up. record { result = refl; after = (tt, refl) };
  del_up = λ k s isk up. record { result = refl; after = (tt, refl) };
  del_value_up = λ k v s isk hv up. record { result = refl; after = (tt, refl) };
}

pub lists-At : (f : Items) → At lists-EtcdContract f f
unfolding lists-EtcdContract
lists-At f = (tt, refl)

-- A literal is checked by evaluation.
abbrev pub name_chars : Bytes → Bool
name_chars [] = true
name_chars (c ∷ s) = (is_word_char c && (not (c == b',') && not (c == b'/'))) && name_chars s

literal-All : (s : Bytes) → name_chars s ≡ true → All IsNameChar s
literal-All [] h = tt
literal-All (c ∷ s) h =
    let (hc, hs) =
      and_true (is_word_char c && (not (c == b',') && not (c == b'/'))) (name_chars s) h in
    let (word, other) = and_true (is_word_char c) (not (c == b',') && not (c == b'/')) hc in
    let (comma, slash) = and_true (not (c == b',')) (not (c == b'/')) other in
    ((word, ground (arith, comma), ground (arith, slash)), literal-All s hs)

pub literal-IsName : (c : ℕ) (s : Bytes) → name_chars (c ∷ s) ≡ true → IsName (c ∷ s)
literal-IsName c s h = ((λ e. cc), literal-All (c ∷ s) h)
