-- ===== src/Etcd/Shell.antt =====
-- src/etcd/etcd_client_shell.cc: the client that runs one `etcdctl` command for each request.
-- `ShellIf::execute` is a parameter. A debug build is modelled: a failed `OHNO_ASSERT` aborts.
pub mod Contract
pub mod Maps
pub mod Life
use ohno.Common.{
  ℕ, zero, suc, ◌+◌, ◌-◌, ◌≡◌, refl, Bool, true, false, not, List, [], ◌∷◌, ◌++◌, if◌then◌else◌,
  ◌==◌, length,
}
use ohno.Common.Bytes.{Bytes, codes, empty, eqb}
use ohno.Common.Exec.{Exec, pure, check, ◌>>=◌, ◌>>◌}
use ohno.Helper.{split}
use ohno.Etcd.Client.{EtcdClient, without}

-- `util::ShellIf`: the exit status is zero, and the output.
pub record Shell (S : Type 0) : Type 0 where
  pub execute : Bytes → Exec S (Bool × Bytes)

-- `value.erase(std::remove(begin, end, '\n'), end)`
remove_newlines : Bytes → Bytes
remove_newlines [] = []
remove_newlines (c ∷ s) = let rest = remove_newlines s in if c == 10 then rest else c ∷ rest

-- The `for` loop of `del`: `i` is the index of the head, `n` the size of the vector.
join_loop : ℕ → ℕ → List Bytes → Bytes → Bytes
join_loop n i [] to_put = to_put
join_loop n i (x ∷ xs) to_put =
    join_loop n (i + 1) xs (if i == n - 1 then to_put ++ x else (to_put ++ x) ++ codes ",")

module _ {S : Type 0} (shell : Shell S) (command_prefix : Bytes) where
  abbrev pub test_command : Bytes
  test_command = command_prefix ++ codes " -w table endpoint health"

  abbrev pub put_command : Bytes → Bytes → Bytes
  put_command key value = command_prefix ++ codes " put -- " ++ key ++ codes " " ++ value

  abbrev pub get_command : Bytes → Bytes
  get_command key = command_prefix ++ codes " get " ++ key ++ codes " --print-value-only"

  abbrev pub del_command : Bytes → Bytes
  del_command key = command_prefix ++ codes " del " ++ key

  test : Exec S Bool
  test = do check (not (empty command_prefix)); r ← shell.execute test_command; pure r.0

  put : Bytes → Bytes → Exec S Bool
  put key value = do
    check (not (empty key))
    check (not (empty value))
    check (not (empty command_prefix))
    r ← shell.execute (put_command key value)
    pure r.0

  get : Bytes → Exec S (Bool × Bytes)
  get key = do
    check (not (empty key))
    check (not (empty command_prefix))
    r ← shell.execute (get_command key)
    pure (if r.0 then (true, if empty r.1 then r.1 else remove_newlines r.1) else (false, r.1))

  pub append : Bytes → Bytes → Exec S Bool
  append key value = do
    check (not (empty value))
    r ← get key
    put key (if r.0 then (if empty r.1 then value else r.1 ++ codes "," ++ value) else value)

  del : Bytes → Exec S Bool
  del key = do
    check (not (empty key))
    check (not (empty command_prefix))
    r ← shell.execute (del_command key)
    pure r.0

  list : Bytes → Exec S (Bool × List Bytes)
  list key = do r ← get key; pure (if r.0 then (true, split r.1 b',') else (false, []))

  pub del_value : Bytes → Bytes → Exec S Bool
  del_value key value = do
    check (not (empty value))
    r ← list key
    if r.0
        then (let values = without value r.1 in
            let to_put = join_loop (length values) 0 values [] in
            if empty to_put then del key else put key to_put)
        else pure false

  pub client : EtcdClient S
  client = record {
    test = test;
    put = put;
    append = append;
    get = get;
    del = del;
    del_value = del_value;
    list = list;
  }
