-- ===== src/Backend/Thread.antt =====
-- src/backend/backend.cc: the thread of a backend, as the steps that it and the main thread take in any
-- order. `running_` is false in a new object.
pub mod Reached
pub mod Stops
use ohno.Common.{ℕ, ◌≡◌, ◌≢◌, Bool, true, false, not, [], if◌then◌else◌}
use ohno.Common.Bytes.{Bytes}
use ohno.Common.Exec.{Exec, Outcome, ok, fault, exception, cni_error, Fault}
use ohno.Common.{◌==◌}

-- Where the function of the thread is: before the test of `running`, in the callback, asleep, or
-- returned. `absent` is a `monitor_` without a thread, which is not joinable.
pub data Place : Type 0 where
  absent testing calling sleeping ended : Place

-- `running_`, `monitor_`, whether `stop` waits in `join`, whether `std::terminate` was called, and
-- what the callback works on.
pub record Thread (W : Type 0) : Type 0 where
  pub running : Bool
  pub monitor : Place
  pub joining : Bool
  pub terminated : Bool
  pub world : W

abbrev pub joinable : Place → Bool
joinable Place.absent = false
joinable p = true

-- `DEFAULT_INTERVAL` where the interval is zero.
unfoldable pub interval_of : ℕ → ℕ
interval_of interval = if interval == 0 then 1 else interval

-- The exceptions that the function of the thread catches.
abbrev pub IsCaught : Fault → Type 0
IsCaught exception = Unit {0}
IsCaught (cni_error code) = Unit {0}
IsCaught e = ⊥

module _ {W : Type 0} where
  unfoldable pub new_thread : W → Thread W
  new_thread w = record {
    running = false;
    monitor = Place.absent;
    joining = false;
    terminated = false;
    world = w;
  }

  -- `startImpl`: the assignment to a `std::thread` that is joinable calls `std::terminate`.
  unfoldable pub start : Thread W → Thread W
  start t =
      if t.running
      then t
      else if joinable t.monitor
      then record t { running = true; terminated = true }
      else record t { running = true; monitor = Place.testing }

  -- `stop` up to `join`, which waits only for a thread.
  unfoldable pub stop : Thread W → Thread W
  stop t = record t { running = false; joining = joinable t.monitor }

  -- The main thread calls `start` or `stop`, and no other function while it waits; the thread of the
  -- backend goes on. A failed assertion in the callback aborts the process, and nothing follows.
  pub data Step (callback : Exec W (Unit {0})) : Thread W → Thread W → Type 0 where
    starts : (t : Thread W) → t.joining ≡ false → Step callback t (start t)
    stops : (t : Thread W) → t.joining ≡ false → Step callback t (stop t)
    joins :
        (t : Thread W)
        → t.joining ≡ true
        → t.monitor ≡ Place.ended
        → Step callback t (record t { joining = false; monitor = Place.absent })
    tests :
        (t : Thread W)
        → t.monitor ≡ Place.testing
        → Step callback t (record t { monitor = if t.running then Place.calling else Place.ended })
    returns :
        (t : Thread W)
        → t.monitor ≡ Place.calling
        → (callback t.world).0 ≡ ok tt
        → Step callback t (record t { monitor = Place.sleeping; world = (callback t.world).1 })
    throws :
        (t : Thread W) (e : Fault)
        → t.monitor ≡ Place.calling
        → (callback t.world).0 ≡ fault e
        → IsCaught e
        → Step callback t (record t { monitor = Place.ended; world = (callback t.world).1 })
    wakes :
        (t : Thread W)
        → t.monitor ≡ Place.sleeping
        → Step callback t (record t { monitor = Place.testing })

  -- The states that a new object reaches.
  pub data Reach (callback : Exec W (Unit {0})) (w : W) : Thread W → Type 0 where
    made : Reach callback w (new_thread w)
    later : {t u : Thread W} → Reach callback w t → Step callback t u → Reach callback w u
