-- ===== src/Tests/Pools.antt =====
-- The theorems about the thread pool, at concrete inputs.
use lowlevel_academy.Prelude.{
  ℕ, false, suc, ◌⊎◌, ◌≡◌, ◌≢◌, ◌≤◌, refl, List, [], ◌∷◌, ◌++◌, arith, length, replicate, true,
}
use lowlevel_academy.ThreadPool.{threads, Task, null_task, threadpool_init, add_task, stop_pool}
use lowlevel_academy.ThreadPool.Ring.{contents, IsValid, threadpool_init-IsValid}
use lowlevel_academy.ThreadPool.Schedule.{submit_all, submit_all_lem}
use lowlevel_academy.ThreadPool.Threads.{
  begin_destroy, end_destroy, Step, locking, checking, System, worker, lock, initial, Reach, start,
  later, update, joining, wait, waiting, woken, broadcast,
}
use lowlevel_academy.ThreadPool.Threads.Left.{left}
use lowlevel_academy.ThreadPool.Threads.Ending.{AllExited, destroy_ends}
use lowlevel_academy.ThreadPool.Threads.Safety.{
  inside, mutual_exclusion, fifo_order, stopped_for_good,
}

abbrev array : List Task
array = replicate 100 null_task

abbrev job : Task
job = record { fn = 1; arg = 2 }

fresh-IsValid : IsValid (threadpool_init array)
fresh-IsValid = (threadpool_init-IsValid array refl).0

one_queued : (add_task job (threadpool_init array)).queued ≢ 0
unfolding add_task threadpool_init
one_queued = λ q. cc

submit_all_lem_example :
    contents (submit_all (job ∷ job ∷ []) (threadpool_init array)) ≡ job ∷ job ∷ []
submit_all_lem_example = submit_all_lem array (job ∷ job ∷ []) refl

-- Worker 0 has the lock.
abbrev locked : System
locked = record (initial array) { owner = worker 0; pc = update (λ _. locking) 0 checking }

locked-Reach : Reach array locked
locked-Reach = later start (lock 0 (omega arith) refl refl)

fifo_order_example :
    (locked.accepted ≡ locked.started ++ contents locked.pool)
    × (length (contents locked.pool) ≤ 100)
fifo_order_example = fifo_order {s = locked} refl locked-Reach

abbrev zeroth : ℕ
zeroth = 0

mutual_exclusion_example : (zeroth ≡ zeroth) × (inside locked.main ≡ false)
mutual_exclusion_example = mutual_exclusion {s = locked} refl locked-Reach 0 0 refl refl

-- Worker 0 has found the queue empty and waits; then the pool is stopped.
abbrev waits : System
waits = record (initial array) { pc = update locked.pc 0 waiting }

abbrev stopped : System
stopped = record (initial array) {
  pool = stop_pool (threadpool_init array);
  pc = broadcast waits.pc;
  main = joining;
}

-- Another worker takes the lock.
abbrev stopped_locked : System
stopped_locked = record stopped { owner = worker 1; pc = update stopped.pc 1 checking }

is_empty : (threadpool_init array).queued ≡ 0
unfolding threadpool_init
is_empty = refl

is_open : (threadpool_init array).stop ≡ false
unfolding threadpool_init
is_open = refl

is_stopped : stopped.pool.stop ≡ true
unfolding stop_pool
is_stopped = refl

is_locking : stopped.pc 1 ≡ locking
unfolding broadcast woken
is_locking = refl

stopped_for_good_example :
    (stopped_locked.pool.stop ≡ true) × (stopped_locked.started ≡ stopped.started)
stopped_for_good_example =
    stopped_for_good {s = stopped} {t = stopped_locked} (lock 1 (omega arith) is_locking refl)
      is_stopped

waits-Reach : Reach array waits
waits-Reach = later locked-Reach (wait 0 refl is_empty is_open)

stopped-Reach : Reach array stopped
stopped-Reach = later (later waits-Reach (begin_destroy refl refl)) (end_destroy refl)

destroy_ends_example :
    ((i : ℕ) → stopped.pc i ≢ waiting)
    × ((t : System)
        → Step stopped t
        → (t.main ≡ joining) × (suc (left threads t.pc) ≡ left threads stopped.pc))
    × (left threads stopped.pc ≤ 24)
    × (((t : System) × Step stopped t) ⊎ AllExited stopped)
destroy_ends_example = destroy_ends {s = stopped} stopped-Reach refl
