-- ===== src/Etcd/Env.antt =====
-- src/util/env_std.cc: the environment of the process. The calls of the C library are a parameter; their
-- lock is left out.
use ohno.Common.{◌≡◌, Bool, true, not, Option, none, some, []}
use ohno.Common.Bytes.{Bytes, empty}
use ohno.Common.Exec.{Exec, ok, pure, check, ◌>>=◌, ◌>>◌}

-- `getenv`, `setenv` with overwriting, and `unsetenv`; the latter two give whether they succeeded.
pub record Posix (S : Type 0) : Type 0 where
  pub getenv : Bytes → S → Option Bytes
  pub setenv : Bytes → Bytes → S → Bool × S
  pub unsetenv : Bytes → S → Bool × S

-- What they do where they succeed.
pub record PosixLaws {S : Type 0} (c : Posix S) : Type 0 where
  pub set_here :
      (name value : Bytes) (s : S)
      → (c.setenv name value s).0 ≡ true
      → c.getenv name (c.setenv name value s).1 ≡ some value
  pub unset_here :
      (name : Bytes) (s : S)
      → (c.unsetenv name s).0 ≡ true
      → c.getenv name (c.unsetenv name s).1 ≡ none

-- `(val != nullptr) ? std::string{val} : std::string{}`
unfoldable pub text_or_empty : Option Bytes → Bytes
text_or_empty none = []
text_or_empty (some value) = value

module _ {S : Type 0} (c : Posix S) where
  unfoldable pub get : Bytes → Exec S Bytes
  unfolding text_or_empty
  get env = do check (not (empty env)); λ s. (ok (text_or_empty (c.getenv env s)), s)

  unfoldable pub exist : Bytes → Exec S Bool
  unfolding get
  exist env = do value ← get env; pure (not (empty value))

  unfoldable pub set : Bytes → Bytes → Exec S Bool
  set env value = do check (not (empty env)); λ s. let r = c.setenv env value s in (ok r.0, r.1)

  unfoldable pub unset : Bytes → Exec S Bool
  unset env = do check (not (empty env)); λ s. let r = c.unsetenv env s in (ok r.0, r.1)
