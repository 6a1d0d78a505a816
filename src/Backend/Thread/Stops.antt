-- ===== src/Backend/Thread/Stops.antt =====
-- src/backend/backend.cc: `stop` ends, and no callback begins while it waits.
use ohno.Common.{ℕ, zero, suc, ◌≤◌, ◌≡◌, ◌≢◌, ◌⊎◌, inl, inr, refl, true, false, arith}
use ohno.Common.Exec.{Exec, ok, fault, Fault}
use ohno.Backend.Thread.{
  Place, Thread, IsCaught, Step, Reach, starts, stops, joins, tests, returns, throws, wakes,
}
use ohno.Backend.Thread.Reached.{Reach-Orderly}

-- The steps that are left while `stop` waits.
pub left : Place → ℕ
left Place.absent = 0
left Place.ended = 1
left Place.testing = 2
left Place.sleeping = 3
left Place.calling = 4

module _ {W : Type 0} (callback : Exec W (Unit {0})) where
  -- `n` steps, each of which is taken while `stop` waits.
  pub data Waits : ℕ → Thread W → Thread W → Type 0 where
    done : (t : Thread W) → Waits zero t t
    more :
        {n : ℕ} {t u v : Thread W}
        → t.joining ≡ true
        → Step callback t u
        → Waits n u v
        → Waits (suc n) t v

  -- The callback returns, or it throws what the thread catches.
  abbrev pub IsQuiet : Type 0
  IsQuiet =
      (w : W) → ((callback w).0 ≡ ok tt) ⊎ ((e : Fault) × ((callback w).0 ≡ fault e) × IsCaught e)

  -- `stop` has returned, and there is no thread.
  abbrev pub Stopped : Thread W → Type 0
  Stopped t =
      (u : Thread W) × (n : ℕ) × Waits n t u
      × (u.joining ≡ false)
      × (u.monitor ≡ Place.absent)
      × (u.running ≡ false)

  clash : (t : Thread W) → t.joining ≡ true → t.joining ≡ false → ⊥
  clash t j free = ground arith

  waiting_less :
      {t u : Thread W}
      → t.joining ≡ true
      → t.running ≡ false
      → Step callback t u
      → (suc (left u.monitor) ≤ left t.monitor) × (u.running ≡ false) × (u.monitor ≢ Place.calling)
  unfolding left
  waiting_less j r (starts t free) = absurd (clash t j free)
  waiting_less j r (stops t free) = absurd (clash t j free)
  waiting_less j r (joins t waits at) = ground arith
  waiting_less j r (tests t at) = ground arith
  waiting_less j r (returns t at result) = ground arith
  waiting_less j r (throws t e at result caught) = ground arith
  waiting_less j r (wakes t at) = ground arith

  bounded : {n : ℕ} {t u : Thread W} → t.running ≡ false → Waits n t u → n ≤ left t.monitor
  bounded r (done t) = omega arith
  bounded r (more j s w) =
      let (less, r1, quiet) = waiting_less j r s in omega (arith, less, bounded r1 w)

  no_call :
      {n : ℕ} {t u : Thread W} → t.running ≡ false → Waits (suc n) t u → u.monitor ≢ Place.calling
  no_call r (more j s (done t)) = (waiting_less j r s).2
  no_call r (more j s (more j1 s1 w)) = no_call (waiting_less j r s).1 (more j1 s1 w)

  before : {t u : Thread W} → t.joining ≡ true → Step callback t u → Stopped u → Stopped t
  before j s (u, n, w, free, gone, off) = (u, suc n, more j s w, free, gone, off)

  from_ended :
      (t : Thread W) → t.joining ≡ true → t.running ≡ false → t.monitor ≡ Place.ended → Stopped t
  from_ended t j r at = before j (joins t j at) (_, zero, done _, refl, refl, r)

  from_testing :
      (t : Thread W) → t.joining ≡ true → t.running ≡ false → t.monitor ≡ Place.testing → Stopped t
  from_testing t j r at = before j (tests t at) (from_ended _ j r (rw r refl))

  from_sleeping :
      (t : Thread W) → t.joining ≡ true → t.running ≡ false → t.monitor ≡ Place.sleeping → Stopped t
  from_sleeping t j r at = before j (wakes t at) (from_testing _ j r refl)

  from_calling :
      (t : Thread W)
      → IsQuiet
      → t.joining ≡ true
      → t.running ≡ false
      → t.monitor ≡ Place.calling
      → Stopped t
  from_calling t quiet j r at = elim (quiet t.world) [
    | inl result ↦ before j (returns t at result) (from_sleeping _ j r refl)
    | inr (e, result, caught) ↦ before j (throws t e at result caught) (from_ended _ j r refl)
  ]

  from_any :
      (t : Thread W) (m : Place)
      → IsQuiet
      → t.joining ≡ true
      → t.running ≡ false
      → t.monitor ≢ Place.absent
      → t.monitor ≡ m
      → Stopped t
  from_any t Place.absent quiet j r there at = absurd (there at)
  from_any t Place.testing quiet j r there at = from_testing t j r at
  from_any t Place.calling quiet j r there at = from_calling t quiet j r at
  from_any t Place.sleeping quiet j r there at = from_sleeping t j r at
  from_any t Place.ended quiet j r there at = from_ended t j r at

  -- For a callback that always returns or throws what the thread catches: in every state in which
  -- `stop` waits for the thread, there are steps after which it has returned, `running_` is false and
  -- `monitor_` has no thread; it waits for four steps at most, whichever are taken; and after each of
  -- them the thread is not in the callback, so none begins.
  pub stop_ends :
      {w : W} {t : Thread W}
      → IsQuiet
      → Reach callback w t
      → t.joining ≡ true
      → Stopped t
        × ((n : ℕ) (u : Thread W) → Waits n t u → n ≤ 4)
        × ((n : ℕ) (u : Thread W) → Waits (suc n) t u → u.monitor ≢ Place.calling)
  unfolding left
  stop_ends {w} {t} quiet r j =
      let h = Reach-Orderly (λ w. Unit {0}) callback (λ w p. tt) tt r in
      (
        from_any t t.monitor quiet j (h.stopped j) (h.waited j) refl,
        (λ n u s. small t.monitor n (bounded (h.stopped j) s)),
        (λ n u s. no_call (h.stopped j) s),
      )
    where
      small : (m : Place) (n : ℕ) → n ≤ left m → n ≤ 4
      small m n h = ground arith
