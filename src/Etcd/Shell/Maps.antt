-- ===== src/Etcd/Shell/Maps.antt =====
-- src/etcd/etcd_client_shell.cc: the `get` of all keys with a prefix, and `dump`. The order in which an
-- `unordered_map` is read is a parameter.
pub mod Lines
use ohno.Common.{
  ℕ, zero, suc, ◌≡◌, ◌≢◌, refl, ap, ◌∙◌, arith, Bool, true, false, not, Option, none, some, List,
  [], ◌∷◌, ◌++◌, append_assoc, if◌then◌else◌, Bool-cases, All, inl, inr,
}
use ohno.Common.Bytes.{Bytes, codes, empty, eqb, eqb_sound, eqb_refl, eqb_ne}
use ohno.Common.Exec.{Exec, Outcome, ok, pure, lift, check, ◌>>=◌, ◌>>◌}
use ohno.Helper.{split}
use ohno.Registry.{Map, find, erase}
use ohno.Etcd.Shell.{Shell}

-- `map.size() % 2 == 0`
is_even : List Bytes → Bool
is_even [] = true
is_even (x ∷ []) = false
is_even (x ∷ y ∷ rest) = is_even rest

-- `value[key] = text`
unfoldable pub assign : Bytes → Bytes → Map Bytes → Map Bytes
assign key text m = (key, text) ∷ erase key m

-- The `for` loop over the pairs of lines.
unfoldable pub assign_all : List Bytes → Map Bytes → Map Bytes
unfolding assign
assign_all [] m = m
assign_all (x ∷ []) m = m
assign_all (key ∷ text ∷ rest) m = assign_all rest (assign key text m)

entry_text : Bytes × Bytes → Bytes
entry_text p = p.0 ++ codes " -> " ++ p.1 ++ b'\n' ∷ []

result_of : Map Bytes → Bytes
result_of [] = []
result_of (p ∷ m) = entry_text p ++ result_of m

module _ {S : Type 0} (shell : Shell S) (command_prefix : Bytes) where
  abbrev pub prefix_command : Bytes → Bytes
  prefix_command key = command_prefix ++ codes " get " ++ key ++ codes " --prefix"

  -- The result, and the map that is given by reference.
  pub get_map : Bytes → Map Bytes → Exec S (Bool × Map Bytes)
  unfolding is_even assign_all
  get_map key value = do
    check (not (empty key))
    check (not (empty command_prefix))
    out ← shell.execute (prefix_command key)
    if out.0
        then (let lines = split out.1 b'\n' in
            do check (is_even lines); pure (true, assign_all lines value))
        else pure (false, value)

  pub dump : (Map Bytes → Map Bytes) → Bytes → Exec S Bytes
  unfolding result_of
  dump order key = do
    check (not (empty key))
    r ← get_map key []
    pure (if r.0 then result_of (order r.1) else [])
