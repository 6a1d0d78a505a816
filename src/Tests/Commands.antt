-- ===== src/Tests/Commands.antt =====
-- A concrete shell that runs `etcdctl` on a store in memory, and the theorems on the shell client.
use ohno.Common.{
  ℕ, ◌≡◌, ◌≢◌, refl, ap, ◌∙◌, Bool, true, false, not, ◌&&◌, ◌==◌, and_true, List, [], ◌∷◌, ◌++◌,
  if◌then◌else◌, arith, All, append_assoc,
}
use ohno.Common.Bytes.{Bytes, codes, eqb}
use ohno.Common.Exec.{Exec, ok, Returns}
use ohno.Helper.{split}
use ohno.Helper.Split.{join, Lacks, split-join}
use ohno.Etcd.Words.{IsWord, IsWordChar, IsItem, IsKey, key, literal-IsWordChar, All-imp}
use ohno.Etcd.Client.{update, without}
use ohno.Etcd.Shell.{Shell, test_command, put_command, get_command, del_command, append, del_value}
use ohno.Registry.{Map}
use ohno.Etcd.Shell.Maps.Lines.{printed}
use ohno.Etcd.Shell.Contract.{Etcdctl, write, IsList, Good, items, append_up, del_value_up}

abbrev Values : Type 0
Values = Bytes → Bytes

-- The parts of a command line.
run : List Bytes → Exec Values (Bool × Bytes)
run (p ∷ w ∷ k ∷ []) f = (ok (true, codes "1"), write f k [])
run (p ∷ w ∷ k ∷ g ∷ []) f = (ok (true, f k), f)
run (p ∷ w ∷ x ∷ k ∷ v ∷ []) f =
    if eqb w (codes "put")
    then (ok (true, codes "OK"), write f k v)
    else (ok (true, codes "healthy"), f)
run r f = (ok (false, []), f)

memory : Shell Values
unfolding run
memory = record { execute = λ command. run (split command 32) }

abbrev etcdctl : Bytes
etcdctl = codes "etcdctl"

word-Lacks : (x : Bytes) → All IsWordChar x → Lacks 32 x
word-Lacks x h = All-imp {Q = λ c. c ≢ 32} not_space x h
  where
    not_space : (c : ℕ) → IsWordChar c → c ≢ 32
    not_space c p e = ground arith

abbrev no_space : Bytes → Bool
no_space [] = true
no_space (c ∷ s) = not (c == 32) && no_space s

literal-Lacks : (s : Bytes) → no_space s ≡ true → Lacks 32 s
literal-Lacks [] h = tt
literal-Lacks (c ∷ s) h =
    let (hc, hs) = and_true (not (c == 32)) (no_space s) h in
    (ground (arith, hc), literal-Lacks s hs)

split-put :
    (k v : Bytes)
    → IsWord k
    → IsWord v
    → split (put_command memory etcdctl k v) 32 ≡ etcdctl ∷ codes "put" ∷ codes "--" ∷ k ∷ v ∷ []
unfolding join
split-put k v hk hv =
    let parts = etcdctl ∷ codes "put" ∷ codes "--" ∷ k ∷ v ∷ [] in
    let spelled : put_command memory etcdctl k v ≡ join parts 32 = simp append_assoc in
    ap (λ s. split s 32) spelled
    ∙ split-join 32 parts
        (
          literal-Lacks etcdctl refl,
          (
            literal-Lacks (codes "put") refl,
            (literal-Lacks (codes "--") refl, (word-Lacks k hk.1, (word-Lacks v hv.1, tt))),
          ),
        )
        hv.0

split-get :
    (k : Bytes)
    → IsWord k
    → split (get_command memory etcdctl k) 32
      ≡ etcdctl ∷ codes "get" ∷ k ∷ codes "--print-value-only" ∷ []
unfolding join
split-get k hk =
    let parts = etcdctl ∷ codes "get" ∷ k ∷ codes "--print-value-only" ∷ [] in
    let spelled : get_command memory etcdctl k ≡ join parts 32 = simp append_assoc in
    ap (λ s. split s 32) spelled
    ∙ split-join 32 parts
        (
          literal-Lacks etcdctl refl,
          (
            literal-Lacks (codes "get") refl,
            (word-Lacks k hk.1, (literal-Lacks (codes "--print-value-only") refl, tt)),
          ),
        )
        (λ e. cc)

split-del :
    (k : Bytes)
    → IsWord k
    → split (del_command memory etcdctl k) 32 ≡ etcdctl ∷ codes "del" ∷ k ∷ []
unfolding join
split-del k hk =
    let parts = etcdctl ∷ codes "del" ∷ k ∷ [] in
    let spelled : del_command memory etcdctl k ≡ join parts 32 = simp append_assoc in
    ap (λ s. split s 32) spelled
    ∙ split-join 32 parts
        (literal-Lacks etcdctl refl, (literal-Lacks (codes "del") refl, (word-Lacks k hk.1, tt)))
        hk.0

split-test :
    split (test_command memory etcdctl) 32
    ≡ etcdctl ∷ codes "-w" ∷ codes "table" ∷ codes "endpoint" ∷ codes "health" ∷ []
unfolding join
split-test =
    let parts = etcdctl ∷ codes "-w" ∷ codes "table" ∷ codes "endpoint" ∷ codes "health" ∷ [] in
    split-join 32 parts
      (
        literal-Lacks etcdctl refl,
        (
          literal-Lacks (codes "-w") refl,
          (
            literal-Lacks (codes "table") refl,
            (literal-Lacks (codes "endpoint") refl, (literal-Lacks (codes "health") refl, tt)),
          ),
        ),
      )
      (λ e. cc)

given : etcdctl ≢ []
given e = cc

memory-Etcdctl : Etcdctl memory etcdctl
unfolding memory run eqb
memory-Etcdctl = record {
  Up = λ f. Unit {0};
  value = λ f. f;
  health = λ s up. (codes "healthy", rw split-test (record { result = refl; after = (tt, refl) }));
  put_stores = λ k v s hk hv up.
      (codes "OK", rw (split-put k v hk hv) (record { result = refl; after = (tt, refl) }));
  get_prints = λ k s hk up. rw (split-get k hk) (record { result = refl; after = (tt, refl) });
  del_removes =
      λ k s hk up. (codes "1", rw (split-del k hk) (record { result = refl; after = (tt, refl) }));
}

-- Every key holds the one value `a`.
abbrev one_value : Values
one_value k = codes "a"

abbrev subnets : Bytes
subnets = codes "/ohno/subnets"

a-IsItem : IsItem (codes "a")
a-IsItem = ((λ e. cc), ((refl, λ e. omega (arith, e)), tt))

b-IsItem : IsItem (codes "b")
b-IsItem = ((λ e. cc), ((refl, λ e. omega (arith, e)), tt))

one_value-IsList : IsList (codes "a")
unfolding join
one_value-IsList = record { parts = codes "a" ∷ []; joined = refl; items = (a-IsItem, tt) }

abbrev Holds : Values → Type 0
Holds = Good memory etcdctl given memory-Etcdctl

abbrev read_lists : Values → Bytes → List Bytes
read_lists = items memory etcdctl given memory-Etcdctl

one_value-Good : Holds one_value
unfolding memory-Etcdctl
one_value-Good = record { up = tt; lists = λ k isk. one_value-IsList }

subnets-IsKey : IsKey subnets
subnets-IsKey = key (codes "/subnets") (literal-IsWordChar (codes "/subnets") refl)

append_up_example : Returns (append memory etcdctl subnets (codes "b") one_value) true (λ t.
    Holds t
    × (read_lists t
        ≡ update (read_lists one_value) subnets (read_lists one_value subnets ++ codes "b" ∷ [])))
append_up_example =
    append_up memory etcdctl given memory-Etcdctl subnets (codes "b") one_value subnets-IsKey
      b-IsItem one_value-Good

del_value_up_example : Returns (del_value memory etcdctl subnets (codes "a") one_value) true (λ t.
    Holds t
    × (read_lists t
        ≡ update
            (read_lists one_value)
            subnets
            (without (codes "a") (read_lists one_value subnets))))
del_value_up_example =
    del_value_up memory etcdctl given memory-Etcdctl subnets (codes "a") one_value subnets-IsKey
      a-IsItem one_value-Good

abbrev no_line : Bytes → Bool
no_line [] = true
no_line (c ∷ s) = not (c == 10) && no_line s

abbrev two_entries : Map Bytes
two_entries = (codes "/ohno/a", codes "1") ∷ (codes "/ohno/b", codes "2") ∷ []

-- A client of etcdctl that prints both for every command.
abbrev printing : Shell Values
printing = record { execute = λ command f. (ok (true, printed two_entries), f) }
