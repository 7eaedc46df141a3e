-- ===== src/Tests/Threads.antt =====
-- The theorems about spinlock.c and semaphores.c, at concrete runs.
use lowlevel_academy.Prelude.{◌<◌, ◌*◌, ◌≡◌, ◌≤◌, ◌⊎◌, refl, arith, [], ◌∷◌, false}
use lowlevel_academy.Mutex as Mutex
use lowlevel_academy.Spinlock as Spinlock
use lowlevel_academy.Semaphore as Semaphore
use lowlevel_academy.Semaphore.{
  creates_waiter, creates_signaller, starts, wakes, posts, enters, waits, posted,
}
use lowlevel_academy.Semaphore.Order.{steps, waiter_left, IsOver, semaphore_lem}

abbrev counted : Mutex.System
counted = record { locked = false; counter = 1; pcs = Mutex.finished ∷ [] }

-- The waiter is behind the semaphore.
abbrev behind : Semaphore.System
behind = record {
  sem = 0;
  main = Semaphore.join_waiter;
  waiter = Semaphore.passed;
  signaller = posted;
}

abbrev behind-Reach : Semaphore.Reach behind
behind-Reach =
    Semaphore.later
      (Semaphore.later
        (Semaphore.later
          (Semaphore.later
            (Semaphore.later
              (Semaphore.later (Semaphore.later Semaphore.start (creates_waiter refl))
                (enters refl))
              (creates_signaller refl))
            (starts refl))
          (wakes refl))
        (posts refl))
      (waits 0 refl refl)

semaphore_lem_example :
    ((2 ≤ waiter_left behind.waiter) ⊎ (behind.signaller ≡ posted))
    × (steps behind-Reach ≤ 11)
    × (IsOver behind ⊎ ((s' : Semaphore.System) × Semaphore.Step behind s'))
semaphore_lem_example = semaphore_lem behind behind-Reach

-- The rounds of spinlock.c fit an `int`.
spin-rounds : Spinlock.thread_count * Spinlock.rounds < 2147483648
spin-rounds = omega arith
