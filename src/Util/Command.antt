-- ===== src/Util/Command.antt =====
-- src/util/shell_sync.cc: a command of the shell. The process of Boost is a parameter.
use ohno.Common.{
  ℕ, ◌==◌, ◌≡◌, ◌≢◌, ◌↔◌, inl, inr, refl, sym, subst, arith, Bool, true, false, not, [], ◌∷◌, ◌++◌,
  if◌then◌else◌, Bool-cases,
}
use ohno.Common.Bytes.{Bytes, empty, empty_ne}
use ohno.Common.Exec.{Exec, Outcome, ok, fault, exception, pure, check, ◌>>=◌, ◌>>◌}
use ohno.Etcd.Shell.{Shell}

-- What `/bin/sh -c` left: the exit status, and the texts of its outputs.
pub record Ended : Type 0 where
  pub status : ℕ
  pub output : Bytes
  pub error : Bytes

-- `boost::process::child` and `wait`; a `std::system_error` is the fault `exception`.
pub record Child (S : Type 0) : Type 0 where
  pub run : Bytes → Exec S Ended

-- `exit_code`: the status, or -1.
pub data ExitCode : Type 0 where
  status : ℕ → ExitCode
  minus_one : ExitCode

pub succeeded : ExitCode → Bool
succeeded (ExitCode.status n) = n == 0
succeeded minus_one = false

-- `out.pop_back()` where the text ends with a line feed.
unfoldable pub pop_line : Bytes → Bytes
pop_line [] = []
pop_line (c ∷ []) = if c == b'\n' then [] else c ∷ []
pop_line (c ∷ d ∷ s) = c ∷ pop_line (d ∷ s)

-- The exit code, `out` and `err`. `clear` of the stream does not empty it, so the error text follows
-- the output.
pub finished : Bytes → Bytes → Outcome Ended → Outcome (ExitCode × Bytes × Bytes)
unfolding pop_line
finished out err (ok e) = ok (
  ExitCode.status e.status,
  pop_line e.output,
  if e.status == 0 then err else e.output ++ e.error,
)
finished out err (fault exception) = ok (minus_one, out, err)
finished out err (fault x) = fault x

module _ {S : Type 0} (child : Child S) where
  -- `execute` with the texts that the two references have.
  pub execute_with_error : Bytes → Bytes → Bytes → Exec S (ExitCode × Bytes × Bytes)
  unfolding finished
  execute_with_error command out err = do
    check (not (empty command))
    λ s. let r = child.run command s in (finished out err r.0, r.1)

  pub execute : Bytes → Bytes → Exec S (Bool × Bytes)
  unfolding execute_with_error succeeded
  execute command out = do r ← execute_with_error command out []; pure (succeeded r.0, r.1)

  -- The shell that the other components take.
  pub shell_sync : Shell S
  shell_sync = record { execute = λ command. execute command [] }

-- The text without the line feed at its end.
pub data IsLast : Bytes → Bytes → Type 0 where
  popped : (text : Bytes) → IsLast (text ++ b'\n' ∷ []) text
  whole : (text : Bytes) (c : ℕ) → c ≢ b'\n' → IsLast (text ++ c ∷ []) (text ++ c ∷ [])
  none : IsLast [] []

longer : {s t : Bytes} (c : ℕ) → IsLast s t → s ≢ [] → IsLast (c ∷ s) (c ∷ t)
longer c (popped text) ne = popped (c ∷ text)
longer c (whole text d h) ne = whole (c ∷ text) d h
longer c none ne = absurd (ne refl)

pop_line-IsLast : (s : Bytes) → IsLast s (pop_line s)
unfolding pop_line
pop_line-IsLast [] = none
pop_line-IsLast (c ∷ []) = elim (Bool-cases (c == b'\n')) [
  | inl e ↦
      let q : c ≡ b'\n' = ground arith in rw e (subst (λ d. IsLast (d ∷ []) []) (sym q) (popped []))
  | inr e ↦ rw e (whole [] c (λ q. ground arith))
]
pop_line-IsLast (c ∷ d ∷ s) = longer c (pop_line-IsLast (d ∷ s)) (λ e. cc)

not_zero : (n : ℕ) → n ≢ 0 → (n == 0) ≡ false
not_zero n h = ground arith

module _ {S : Type 0} (child : Child S) where
  -- For every command that is not empty and whose process ends: `execute` succeeds exactly if the
  -- status is zero, and gives the output without the line feed at its end; where the status is not
  -- zero, the error text that it logs is the whole output and the error output behind it.
  pub execute_lem :
      (command : Bytes) (s : S) {e : Ended}
      → command ≢ []
      → (child.run command s).0 ≡ ok e
      → (text : Bytes) × (b : Bool) × IsLast e.output text
        × ((execute child command [] s).0 ≡ ok (b, text))
        × ((b ≡ true) ↔ (e.status ≡ 0))
        × (e.status ≢ 0
            → (execute_with_error child command [] [] s).0
              ≡ ok (ExitCode.status e.status, text, e.output ++ e.error))
  unfolding execute execute_with_error finished succeeded
  execute_lem command s {e} ne ran = (
    pop_line e.output,
    e.status == 0,
    pop_line-IsLast e.output,
    rw (empty_ne command ne, ran) refl,
    ground arith,
    (λ h. rw (empty_ne command ne, ran, not_zero e.status h) refl),
  )
