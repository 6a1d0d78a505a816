-- ===== src/Etcd/Shell/Contract.antt =====
-- `EtcdClientShell` fulfils the contract of the interface, if `etcdctl` does what it documents.
use mathlib.Core.List.{cons-ne-nil, concat-ne-nil}
use ohno.Common.{
  ℕ, ◌+◌, ◌-◌, ◌≡◌, ◌≢◌, refl, sym, ap, ◌∙◌, subst, fun_ext, true, List, [], ◌∷◌, ◌++◌,
  if◌then◌else◌, arith, length, All, All-append, Bool-cases, inl, inr, append_assoc, append-nil,
}
use ohno.Common.Bytes.{Bytes, codes, empty, empty_ne, eqb}
use ohno.Common.Exec.{Returns, Returns-bind, pure}
use ohno.Helper.{split}
use ohno.Helper.Split.{join, split-join, Lacks}
use ohno.Etcd.Words.{
  IsKey, IsItem, IsWord, IsKey-IsWord, IsWord-Lacks_newline, Items-Lacks_comma, Items-EndsFull,
  join-IsWordChar, join-ne-nil, join-concat,
}
use ohno.Etcd.Client.{EtcdContract, Items, update, without}
use ohno.Etcd.Shell.{
  Shell, remove_newlines, join_loop, test_command, put_command, get_command, del_command, test, put,
  get, append, del, list, del_value, client,
}

-- One key of the store is written.
unfoldable pub write : (Bytes → Bytes) → Bytes → Bytes → Bytes → Bytes
write f k v j = if eqb k j then v else f j

-- `etcdctl` with the flags of `command_prefix`, in the states in which ETCD answers: `put` stores a
-- value, `get --print-value-only` prints the value of the key, `del` leaves the key without a value.
-- The empty text stands for no value; the shell has taken off the last newline of the output.
pub record Etcdctl {S : Type 0} (shell : Shell S) (command_prefix : Bytes) : Type 1 where
  pub Up : S → Type 0
  pub value : S → Bytes → Bytes
  pub health :
      (s : S)
      → Up s
      → (out : Bytes) × Returns
          (shell.execute (test_command shell command_prefix) s)
          (true, out)
          (λ t. Up t × (value t ≡ value s))
  pub put_stores :
      (k v : Bytes) (s : S)
      → IsWord k
      → IsWord v
      → Up s
      → (out : Bytes) × Returns
          (shell.execute (put_command shell command_prefix k v) s)
          (true, out)
          (λ t. Up t × (value t ≡ write (value s) k v))
  pub get_prints :
      (k : Bytes) (s : S)
      → IsWord k
      → Up s
      → Returns
          (shell.execute (get_command shell command_prefix k) s)
          (true, value s k)
          (λ t. Up t × (value t ≡ value s))
  pub del_removes :
      (k : Bytes) (s : S)
      → IsWord k
      → Up s
      → (out : Bytes) × Returns
          (shell.execute (del_command shell command_prefix k) s)
          (true, out)
          (λ t. Up t × (value t ≡ write (value s) k []))

-- A text of one line is kept.
remove_newlines_lem : (s : Bytes) → Lacks 10 s → remove_newlines s ≡ s
unfolding remove_newlines
remove_newlines_lem [] h = refl
remove_newlines_lem (c ∷ s) h = ground (arith, remove_newlines_lem s h.1)

join_loop_more :
    (n i : ℕ) (x : Bytes) (xs : List Bytes) (out : Bytes)
    → i ≢ n - 1
    → join_loop n i (x ∷ xs) out ≡ join_loop n (i + 1) xs ((out ++ x) ++ codes ",")
unfolding join_loop
join_loop_more n i x xs out h = ground arith

join_loop_last :
    (n i : ℕ) (x : Bytes) (out : Bytes) → i ≡ n - 1 → join_loop n i (x ∷ []) out ≡ out ++ x
unfolding join_loop
join_loop_last n i x out h = ground arith

join_loop_end : (n i : ℕ) (out : Bytes) → join_loop n i [] out ≡ out
unfolding join_loop
join_loop_end n i out = refl

-- The loop of `del` appends the values with a comma between each two.
join_loop-join :
    (n i : ℕ) (xs : List Bytes) (out : Bytes)
    → n ≡ i + length xs
    → join_loop n i xs out ≡ out ++ join xs b','
unfolding join
join_loop-join n i [] out h = join_loop_end n i out ∙ sym (append-nil out)
join_loop-join n i (x ∷ []) out h = join_loop_last n i x out (omega arith)
join_loop-join n i (x ∷ y ∷ r) out h =
    join_loop_more n i x (y ∷ r) out (omega arith)
    ∙ join_loop-join n (i + 1) (y ∷ r) ((out ++ x) ++ codes ",") (omega arith)
    ∙ append_assoc (out ++ x) (codes ",") (join (y ∷ r) b',')
    ∙ append_assoc out x (b',' ∷ join (y ∷ r) b',')

without-All : (P : Bytes → Type 0) (v : Bytes) (xs : List Bytes) → All P xs → All P (without v xs)
unfolding without
without-All P v [] h = tt
without-All P v (x ∷ xs) h = ground (arith, without-All P v xs h.1)

-- What is stored under a key of the program is a list of values.
pub record IsList (v : Bytes) : Type 0 where
  pub parts : List Bytes
  pub joined : v ≡ join parts b','
  pub items : All IsItem parts

IsList-split : (v : Bytes) (l : IsList v) → split v b',' ≡ l.parts
IsList-split v l =
    rw l.joined
      (split-join b',' l.parts (Items-Lacks_comma l.parts l.items) (Items-EndsFull l.parts l.items))

IsList-join : (xs : List Bytes) → All IsItem xs → IsList (join xs b',')
IsList-join xs h = record { parts = xs; joined = refl; items = h }

module _ {S : Type 0} (shell : Shell S) (command_prefix : Bytes) (given : command_prefix ≢ [])
    (e : Etcdctl shell command_prefix) where
  -- ETCD answers, and holds a list of values under each key of the program.
  pub record Good (s : S) : Type 0 where
    pub up : e.Up s
    pub lists : (k : Bytes) → IsKey k → IsList (e.value s k)

  pub items : S → Items
  items s k = split (e.value s k) b','

  abbrev Same : S → S → Type 0
  Same s t = Good t × (items t ≡ items s)

  -- An answer that leaves the values as they are.
  keeps : (s : S) → Good s → (t : S) → e.Up t × (e.value t ≡ e.value s) → Same s t
  unfolding items
  keeps s g t h = (
    record { up = h.0; lists = λ k isk. subst (λ f. IsList (f k)) (sym h.1) (g.lists k isk) },
    λ i k. split (h.1 i k) b',',
  )

  write-IsList :
      (f : Bytes → Bytes) (k v j : Bytes) → IsList v → IsList (f j) → IsList (write f k v j)
  unfolding write
  write-IsList f k v j hv hf = elim (Bool-cases (eqb k j)) [ inl p ↦ rw p hv | inr p ↦ rw p hf ]

  split-write :
      (f : Bytes → Bytes) (k v : Bytes) (xs : List Bytes)
      → split v b',' ≡ xs
      → (j : Bytes) → split (write f k v j) b',' ≡ update (λ i. split (f i) b',') k xs j
  unfolding write update
  split-write f k v xs h j = elim (Bool-cases (eqb k j)) [ inl p ↦ rw p h | inr p ↦ rw p ]

  -- An answer that writes one list.
  writes :
      (s : S) (k : Bytes) (xs : List Bytes)
      → Good s
      → All IsItem xs
      → (t : S) → e.Up t × (e.value t ≡ write (e.value s) k (join xs b','))
      → Good t × (items t ≡ update (items s) k xs)
  unfolding items IsList-join
  writes s k xs g h t r = (
    record {
      up = r.0;
      lists = λ j isk.
          subst (λ f. IsList (f j)) (sym r.1)
            (write-IsList (e.value s) k (join xs b',') j (IsList-join xs h) (g.lists j isk));
    },
    fun_ext λ j.
        ap (λ (f : Bytes → Bytes). split (f j) b',') r.1
        ∙ split-write (e.value s) k (join xs b',') xs (IsList-split _ (IsList-join xs h)) j,
  )

  items-All : (s : S) (k : Bytes) → Good s → IsKey k → All IsItem (items s k)
  unfolding items
  items-All s k g isk =
      let l = g.lists k isk in subst (All IsItem) (sym (IsList-split (e.value s k) l)) l.items

  value-join : (s : S) (k : Bytes) → Good s → IsKey k → e.value s k ≡ join (items s k) b','
  unfolding items
  value-join s k g isk =
      let l = g.lists k isk in
      l.joined ∙ ap (λ xs. join xs b',') (sym (IsList-split (e.value s k) l))

  test_up : (s : S) → Good s → Returns (test shell command_prefix s) true (Same s)
  unfolding test
  test_up s g = rw (empty_ne command_prefix given) (
      Returns-bind (shell.execute (test_command shell command_prefix)) (λ r. pure r.0) s
        (e.health s g.up).1 (λ t q. record { result = refl; after = keeps s g t q }))

  -- `get` returns the stored text.
  get_text :
      (k : Bytes) (s : S)
      → IsKey k
      → Good s
      → Returns (get shell command_prefix k s) (true, e.value s k) (Same s)
  unfolding get
  get_text k s isk g =
      let w = IsKey-IsWord k isk in
      let l = g.lists k isk in
      let line : remove_newlines (e.value s k) ≡ e.value s k =
        remove_newlines_lem (e.value s k)
          (rw l.joined (IsWord-Lacks_newline _ (join-IsWordChar l.parts l.items))) in
      rw (empty_ne k w.0, empty_ne command_prefix given)
        (Returns-bind (shell.execute (get_command shell command_prefix k)) _ s
          (e.get_prints k s w g.up)
          (λ t q. record { result = ground (arith, line); after = keeps s g t q }))

  get_up :
      (k : Bytes) (s : S)
      → IsKey k
      → Good s
      → Returns (get shell command_prefix k s) (true, join (items s k) b',') (Same s)
  get_up k s isk g = rw (← value-join s k g isk) (get_text k s isk g)

  list_up :
      (k : Bytes) (s : S)
      → IsKey k
      → Good s
      → Returns (list shell command_prefix k s) (true, items s k) (Same s)
  unfolding list items
  list_up k s isk g =
      Returns-bind (get shell command_prefix k) _ s (get_text k s isk g)
        (λ t q. record { result = refl; after = q })

  -- `put` of a list that is joined.
  put_list :
      (k : Bytes) (xs : List Bytes) (s : S)
      → IsKey k
      → xs ≢ []
      → All IsItem xs
      → Good s
      → Returns
          (put shell command_prefix k (join xs b',') s)
          true
          (λ t. Good t × (items t ≡ update (items s) k xs))
  unfolding put
  put_list k [] s isk ne h g = absurd (ne refl)
  put_list k (x ∷ xs) s isk ne h g =
      let w = IsKey-IsWord k isk in
      let full = join-ne-nil x xs h.0 in
      rw (empty_ne k w.0, empty_ne (join (x ∷ xs) b',') full, empty_ne command_prefix given)
        (Returns-bind (shell.execute (put_command shell command_prefix k (join (x ∷ xs) b',')))
          (λ r. pure r.0) s
          (e.put_stores k (join (x ∷ xs) b',') s w (full, join-IsWordChar (x ∷ xs) h) g.up).1
          (λ t q. record { result = refl; after = writes s k (x ∷ xs) g h t q }))

  put_up :
      (k v : Bytes) (s : S)
      → IsKey k
      → IsItem v
      → Good s
      → Returns
          (put shell command_prefix k v s)
          true
          (λ t. Good t × (items t ≡ update (items s) k (v ∷ [])))
  put_up k v s isk h g = unfold join in put_list k (v ∷ []) s isk (cons-ne-nil v []) (h, tt) g

  append_text :
      (xs : List Bytes) (v : Bytes)
      → All IsItem xs
      → (if empty (join xs b',') then v else join xs b',' ++ codes "," ++ v)
        ≡ join (xs ++ v ∷ []) b','
  append_text [] v h = unfold join empty in refl
  append_text (x ∷ xs) v h =
      rw (empty_ne (join (x ∷ xs) b',') (join-ne-nil x xs h.0))
        (append_assoc (join (x ∷ xs) b',') (codes ",") v ∙ sym (join-concat x xs v))

  -- If `etcdctl` does what it documents, ETCD answers, and each key of the program holds a list of
  -- values: `append` returns `true` and puts the value at the end of the key's list, and no other
  -- list changes.
  pub append_up :
      (k v : Bytes) (s : S)
      → IsKey k
      → IsItem v
      → Good s
      → Returns
          (append shell command_prefix k v s)
          true
          (λ t. Good t × (items t ≡ update (items s) k (items s k ++ v ∷ [])))
  unfolding append
  append_up k v s isk h g =
      let xs = items s k in
      let hs = items-All s k g isk in
      rw (empty_ne v h.0) (
        Returns-bind (get shell command_prefix k) _ s (get_up k s isk g) (λ t q.
          rw (append_text xs v hs) (
            subst
              (λ f.
                Returns (put shell command_prefix k (join (xs ++ v ∷ []) b',') t) true
                  (λ u. Good u × (items u ≡ update f k (xs ++ v ∷ []))))
              q.1
              (put_list k (xs ++ v ∷ []) t isk (concat-ne-nil v xs)
                (All-append IsItem xs (v ∷ []) hs (h, tt)) q.0))))

  del_up :
      (k : Bytes) (s : S)
      → IsKey k
      → Good s
      → Returns
          (del shell command_prefix k s)
          true
          (λ t. Good t × (items t ≡ update (items s) k []))
  unfolding del
  del_up k s isk g =
      let w = IsKey-IsWord k isk in
      rw (empty_ne k w.0, empty_ne command_prefix given)
        (Returns-bind (shell.execute (del_command shell command_prefix k)) (λ r. pure r.0) s
          (e.del_removes k s w g.up).1
          (λ t q. record { result = refl; after = writes s k [] g tt t (unfold join in q) }))

  -- The end of `del` with a value: the key is deleted if no value is left.
  del_or_put :
      (k : Bytes) (xs : List Bytes) (s : S)
      → IsKey k
      → All IsItem xs
      → Good s
      → Returns
          ((if empty (join xs b',')
              then del shell command_prefix k
              else put shell command_prefix k (join xs b','))
            s)
          true
          (λ t. Good t × (items t ≡ update (items s) k xs))
  del_or_put k [] s isk h g = unfold join empty in del_up k s isk g
  del_or_put k (x ∷ xs) s isk h g =
      rw (empty_ne (join (x ∷ xs) b',') (join-ne-nil x xs h.0))
        (put_list k (x ∷ xs) s isk (cons-ne-nil x xs) h g)

  -- If `etcdctl` does what it documents, ETCD answers, and each key of the program holds a list of
  -- values: `del` with a value returns `true` and takes every copy of it out of the key's list, also
  -- where none is left then, and no other list changes.
  pub del_value_up :
      (k v : Bytes) (s : S)
      → IsKey k
      → IsItem v
      → Good s
      → Returns
          (del_value shell command_prefix k v s)
          true
          (λ t. Good t × (items t ≡ update (items s) k (without v (items s k))))
  unfolding del_value
  del_value_up k v s isk h g =
      let xs = without v (items s k) in
      rw (empty_ne v h.0) (
        Returns-bind (list shell command_prefix k) _ s (list_up k s isk g) (λ t q.
          rw (join_loop-join (length xs) 0 xs [] (omega arith)) (
            subst
              (λ f.
                Returns
                  ((if empty (join xs b',')
                      then del shell command_prefix k
                      else put shell command_prefix k (join xs b','))
                    t)
                  true (λ u. Good u × (items u ≡ update f k xs)))
              q.1
              (del_or_put k xs t isk (without-All IsItem v (items s k) (items-All s k g isk))
                q.0))))

  -- Every operation of the client does what the interface's users rely on.
  pub client-EtcdContract : EtcdContract (client shell command_prefix)
  unfolding client
  client-EtcdContract = record {
    Up = Good;
    items = items;
    test_up = test_up;
    get_up = get_up;
    list_up = list_up;
    put_up = put_up;
    append_up = append_up;
    del_up = del_up;
    del_value_up = del_value_up;
  }
