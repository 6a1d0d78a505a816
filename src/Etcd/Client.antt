-- ===== src/Etcd/Client.antt =====
-- src/etcd/etcd_client_if.h: the interface that the IPAM and the storage use, and the contract by
-- which they use it. An out parameter is part of the result, and is taken to be empty at the call.
-- The `get` of a map and `dump` change nothing and stand with the shell client.
use ohno.Common.{◌≡◌, Bool, true, List, [], ◌∷◌, ◌++◌, if◌then◌else◌, subst, ◌≢◌}
use ohno.Common.Bytes.{Bytes, eqb, eqb_refl, eqb_ne}
use ohno.Common.Exec.{Exec, Returns}
use ohno.Helper.Split.{join}
use ohno.Etcd.Words.{IsKey, IsItem}

pub record EtcdClient (S : Type 0) : Type 0 where
  pub test : Exec S Bool
  pub put : Bytes → Bytes → Exec S Bool
  pub append : Bytes → Bytes → Exec S Bool
  pub get : Bytes → Exec S (Bool × Bytes)
  pub del : Bytes → Exec S Bool
  pub del_value : Bytes → Bytes → Exec S Bool
  pub list : Bytes → Exec S (Bool × List Bytes)

-- The lists of values under all keys.
abbrev pub Items : Type 0
Items = Bytes → List Bytes

unfoldable pub update : Items → Bytes → List Bytes → Items
update f k xs j = if eqb k j then xs else f j

-- `values.erase(std::remove(begin, end, x), end)`: the other values, in their order.
unfoldable pub without : Bytes → List Bytes → List Bytes
without x [] = []
without x (y ∷ ys) = let rest = without x ys in if eqb y x then rest else y ∷ rest

-- What the client does while ETCD answers: a key holds a list of values, `get` returns it as one
-- text, and only the named key is written.
pub record EtcdContract {S : Type 0} (c : EtcdClient S) : Type 1 where
  pub Up : S → Type 0
  pub items : S → Items
  pub test_up : (s : S) → Up s → Returns (c.test s) true (λ t. Up t × (items t ≡ items s))
  pub get_up :
      (k : Bytes) (s : S)
      → IsKey k
      → Up s
      → Returns (c.get k s) (true, join (items s k) b',') (λ t. Up t × (items t ≡ items s))
  pub list_up :
      (k : Bytes) (s : S)
      → IsKey k
      → Up s
      → Returns (c.list k s) (true, items s k) (λ t. Up t × (items t ≡ items s))
  pub put_up :
      (k v : Bytes) (s : S)
      → IsKey k
      → IsItem v
      → Up s
      → Returns (c.put k v s) true (λ t. Up t × (items t ≡ update (items s) k (v ∷ [])))
  pub append_up :
      (k v : Bytes) (s : S)
      → IsKey k
      → IsItem v
      → Up s
      → Returns
          (c.append k v s)
          true
          (λ t. Up t × (items t ≡ update (items s) k (items s k ++ v ∷ [])))
  pub del_up :
      (k : Bytes) (s : S)
      → IsKey k
      → Up s
      → Returns (c.del k s) true (λ t. Up t × (items t ≡ update (items s) k []))
  pub del_value_up :
      (k v : Bytes) (s : S)
      → IsKey k
      → IsItem v
      → Up s
      → Returns
          (c.del_value k v s)
          true
          (λ t. Up t × (items t ≡ update (items s) k (without v (items s k))))

pub update_self : (f : Items) (k : Bytes) (xs : List Bytes) → update f k xs k ≡ xs
unfolding update
update_self f k xs = rw (eqb_refl k)

pub update_ne : (f : Items) (k j : Bytes) (xs : List Bytes) → k ≢ j → update f k xs j ≡ f j
unfolding update
update_ne f k j xs h = rw (eqb_ne k j h)

pub ruleset update_laws = (update_self, update_ne)

-- The contract at a state that is known to hold the lists `f`.
module _ {S : Type 0} {c : EtcdClient S} (k : EtcdContract c) where
  abbrev pub At : Items → S → Type 0
  At f s = k.Up s × (k.items s ≡ f)

  pub get-At :
      (key : Bytes) (f : Items) (s : S)
      → IsKey key
      → At f s
      → Returns (c.get key s) (true, join (f key) b',') (At f)
  get-At key f s isk h =
      subst (λ g. Returns (c.get key s) (true, join (g key) b',') (At g)) h.1
        (k.get_up key s isk h.0)

  pub list-At :
      (key : Bytes) (f : Items) (s : S)
      → IsKey key
      → At f s
      → Returns (c.list key s) (true, f key) (At f)
  list-At key f s isk h =
      subst (λ g. Returns (c.list key s) (true, g key) (At g)) h.1 (k.list_up key s isk h.0)

  pub put-At :
      (key v : Bytes) (f : Items) (s : S)
      → IsKey key
      → IsItem v
      → At f s
      → Returns (c.put key v s) true (At (update f key (v ∷ [])))
  put-At key v f s isk hv h =
      subst (λ g. Returns (c.put key v s) true (At (update g key (v ∷ [])))) h.1
        (k.put_up key v s isk hv h.0)

  pub append-At :
      (key v : Bytes) (f : Items) (s : S)
      → IsKey key
      → IsItem v
      → At f s
      → Returns (c.append key v s) true (At (update f key (f key ++ v ∷ [])))
  append-At key v f s isk hv h =
      subst (λ g. Returns (c.append key v s) true (At (update g key (g key ++ v ∷ [])))) h.1
        (k.append_up key v s isk hv h.0)

  pub del-At :
      (key : Bytes) (f : Items) (s : S)
      → IsKey key
      → At f s
      → Returns (c.del key s) true (At (update f key []))
  del-At key f s isk h =
      subst (λ g. Returns (c.del key s) true (At (update g key []))) h.1 (k.del_up key s isk h.0)

  pub del_value-At :
      (key v : Bytes) (f : Items) (s : S)
      → IsKey key
      → IsItem v
      → At f s
      → Returns (c.del_value key v s) true (At (update f key (without v (f key))))
  del_value-At key v f s isk hv h =
      subst (λ g. Returns (c.del_value key v s) true (At (update g key (without v (g key))))) h.1
        (k.del_value_up key v s isk hv h.0)
