-- ===== src/Tests/Mutex.antt =====
-- The theorems about mutex.c, on one thread of one round.
use lowlevel_academy.Prelude.{◌<◌, ◌*◌, ◌≡◌, ◌⊎◌, refl, false, [], ◌∷◌, arith, ◌≤◌, ◌+◌, ◌↔◌}
use lowlevel_academy.Mutex.{
  rounds, thread_count, finished, System, Step, lock, load, store, unlock, Reach, start, later,
}
use lowlevel_academy.Mutex.Total.{AllFinished, mutex_total}
use lowlevel_academy.Mutex.Steps.{steps, mutex_terminates}
use lowlevel_academy.Mutex.Progress.{mutex_progress}

abbrev done : System
done = record { locked = false; counter = 1; pcs = finished ∷ [] }

abbrev done-Reach : Reach 1 1 done
done-Reach =
    later (later (later (later start (lock 0 refl refl)) (load 0 0 refl)) (store 0 0 0 refl))
      (unlock 0 refl)

mutex_total_example : done.counter ≡ 1
mutex_total_example = mutex_total 1 1 done (omega arith) done-Reach (refl, tt)

mutex_progress_example : AllFinished done.pcs ⊎ ((s' : System) × Step 1 done s')
mutex_progress_example = mutex_progress 1 1 done (omega arith) done-Reach

mutex_terminates_example :
    (steps done-Reach ≤ 1 * (2 * 1 + 2))
    × ((steps done-Reach ≡ 1 * (2 * 1 + 2)) ↔ AllFinished done.pcs)
mutex_terminates_example = mutex_terminates 1 1 done done-Reach

-- The rounds of the program fit an `int`.
thread_count-rounds : thread_count * rounds < 2147483648
thread_count-rounds = omega arith
