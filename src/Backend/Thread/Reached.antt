-- ===== src/Backend/Thread/Reached.antt =====
-- src/backend/backend.cc: what holds of a thread at any time.
use ohno.Common.{◌≡◌, ◌≢◌, refl, Bool, true, false, arith}
use ohno.Common.Exec.{Exec}
use ohno.Backend.Thread.{
  Place, Thread, new_thread, start, stop, Step, Reach, starts, stops, joins, tests, returns, throws,
  wakes, made, later,
}

-- No thread was replaced, and between `stop` and `start` there is none.
pub record Orderly {W : Type 0} (P : W → Type 0) (t : Thread W) : Type 0 where
  pub alive : t.terminated ≡ false
  pub gone : t.running ≡ false → t.joining ≡ false → t.monitor ≡ Place.absent
  pub stopped : t.joining ≡ true → t.running ≡ false
  pub waited : t.joining ≡ true → t.monitor ≢ Place.absent
  pub runs : t.running ≡ true → t.monitor ≢ Place.absent
  pub kept : P t.world

module _ {W : Type 0} (P : W → Type 0) (callback : Exec W (Unit {0}))
    (keeps : (w : W) → P w → P (callback w).1) where
  start-Orderly :
      (running : Bool) (monitor : Place) (joining terminated : Bool) (w : W)
      → (let t : Thread W = record {
        running = running;
        monitor = monitor;
        joining = joining;
        terminated = terminated;
        world = w;
      } in
          joining ≡ false → Orderly P t → Orderly P (start t))
  unfolding start
  start-Orderly true monitor joining terminated w free h = h
  start-Orderly false Place.absent joining terminated w free h = ground arith
  start-Orderly false Place.testing joining terminated w free h = cc (h.gone refl free)
  start-Orderly false Place.calling joining terminated w free h = cc (h.gone refl free)
  start-Orderly false Place.sleeping joining terminated w free h = cc (h.gone refl free)
  start-Orderly false Place.ended joining terminated w free h = cc (h.gone refl free)

  Step-Orderly : {t u : Thread W} → Step callback t u → Orderly P t → Orderly P u
  unfolding start stop
  Step-Orderly (starts t free) h =
      start-Orderly t.running t.monitor t.joining t.terminated t.world free h
  Step-Orderly (stops t free) h = ground arith
  Step-Orderly (joins t waits done) h = ground arith
  Step-Orderly (tests t at) h = ground arith
  Step-Orderly (returns t at result) h = ground (arith, keeps t.world h.kept)
  Step-Orderly (throws t e at result caught) h = ground (arith, keeps t.world h.kept)
  Step-Orderly (wakes t at) h = ground arith

  -- For every callback that keeps `P`, however it ends: in every order of the steps of the main thread
  -- and of the thread of the backend, from an object whose world has `P`, the thread that a
  -- `monitor_` holds is never replaced by another, which would end the process; outside `stop`,
  -- `running_` is false only where there is no thread; and the world still has `P`.
  pub Reach-Orderly : {w : W} {t : Thread W} → P w → Reach callback w t → Orderly P t
  unfolding new_thread
  Reach-Orderly p made = ground arith
  Reach-Orderly p (later r s) = Step-Orderly s (Reach-Orderly p r)
