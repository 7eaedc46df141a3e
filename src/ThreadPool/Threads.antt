-- ===== src/ThreadPool/Threads.antt =====
-- The workers and the main thread over one pool. A step is what a thread does from one lock, unlock
-- or wait to the next; the threads are interleaved in any order.
use lowlevel_academy.Prelude.{
  ℕ, ◌≡◌, ◌≢◌, ◌<◌, Bool, true, false, List, [], ◌∷◌, ◌++◌, Option, none, some, ◌==◌, if◌then◌else◌,
}
use lowlevel_academy.ThreadPool.{
  threads, Task, Pool, threadpool_init, add_task, accepts, front_task, take_task, stop_pool,
}
pub mod Safety
pub mod Left
pub mod Ending

-- Where a worker stands in `thread_function`.
pub data Pc : Type 0 where
  locking : Pc  -- before `pthread_mutex_lock`, or woken in `pthread_cond_wait` and waiting for the lock
  checking : Pc  -- with the lock, at the test of the inner loop
  waiting : Pc  -- in `pthread_cond_wait`
  running : Task → Pc  -- after the unlock, in the task
  exited : Pc

-- Where the main thread stands: outside the pool's functions, with the lock in
-- `threadpool_add_task` or in `threadpool_destroy`, or after it.
pub data MainPc : Type 0 where
  outside : MainPc
  adding : Task → MainPc
  stopping : MainPc
  joining : MainPc

-- Who holds `pool->lock`.
pub data Owner : Type 0 where
  nobody : Owner
  main_thread : Owner
  worker : ℕ → Owner

-- `accepted` and `started` record the tasks that were queued and those that were taken, in order.
pub record System : Type 0 where
  pub pool : Pool
  pub owner : Owner
  pub pc : ℕ → Pc
  pub main : MainPc
  pub accepted : List Task
  pub started : List Task

abbrev pub update : (ℕ → Pc) → ℕ → Pc → ℕ → Pc
update f i a j = if i == j then a else f j

-- A worker that is woken in `pthread_cond_wait` waits for the lock.
unfoldable pub woken : Pc → Pc
woken waiting = locking
woken p = p

-- What `pthread_cond_broadcast` does: every worker that waits is woken.
unfoldable pub broadcast : (ℕ → Pc) → ℕ → Pc
broadcast pc i = woken (pc i)

-- The list of accepted tasks after `threadpool_add_task`.
abbrev pub accept : Pool → Task → List Task → List Task
accept p t ts = if accepts p then ts ++ t ∷ [] else ts

-- `wake` is a return from `pthread_cond_wait` that no call has caused. `end_add_signal` is an added
-- task whose `pthread_cond_signal` wakes worker `i`; `end_add` is a task that is refused, or one
-- whose signal finds no worker waiting.
pub data Step (s : System) : System → Type 0 where
  lock :
      (i : ℕ)
      → i < threads
      → s.pc i ≡ locking
      → s.owner ≡ nobody
      → Step s (record s { owner = worker i; pc = update s.pc i checking })
  wait :
      (i : ℕ)
      → s.pc i ≡ checking
      → s.pool.queued ≡ 0
      → s.pool.stop ≡ false
      → Step s (record s { owner = nobody; pc = update s.pc i waiting })
  wake : (i : ℕ) → s.pc i ≡ waiting → Step s (record s { pc = update s.pc i locking })
  exit :
      (i : ℕ)
      → s.pc i ≡ checking
      → s.pool.stop ≡ true
      → Step s (record s { owner = nobody; pc = update s.pc i exited })
  take :
      (i : ℕ)
      → s.pc i ≡ checking
      → s.pool.queued ≢ 0
      → s.pool.stop ≡ false
      → Step s (record s {
        pool = take_task s.pool;
        owner = nobody;
        pc = update s.pc i (running (front_task s.pool));
        started = s.started ++ front_task s.pool ∷ [];
      })
  finish :
      (i : ℕ) (t : Task) → s.pc i ≡ running t → Step s (record s { pc = update s.pc i locking })
  begin_add :
      (t : Task)
      → s.main ≡ outside
      → s.owner ≡ nobody
      → Step s (record s { owner = main_thread; main = adding t })
  end_add :
      (t : Task)
      → s.main ≡ adding t
      → ((i : ℕ) → s.pc i ≡ waiting → accepts s.pool ≡ false)
      → Step s (record s {
        pool = add_task t s.pool;
        owner = nobody;
        main = outside;
        accepted = accept s.pool t s.accepted;
      })
  end_add_signal :
      (t : Task) (i : ℕ)
      → s.main ≡ adding t
      → accepts s.pool ≡ true
      → s.pc i ≡ waiting
      → Step s (record s {
        pool = add_task t s.pool;
        owner = nobody;
        pc = update s.pc i locking;
        main = outside;
        accepted = accept s.pool t s.accepted;
      })
  begin_destroy :
      s.main ≡ outside
      → s.owner ≡ nobody
      → Step s (record s { owner = main_thread; main = stopping })
  end_destroy :
      s.main ≡ stopping
      → Step s (record s {
        pool = stop_pool s.pool;
        owner = nobody;
        pc = broadcast s.pc;
        main = joining;
      })

-- After `threadpool_init`, on whatever the array held.
abbrev pub initial : List Task → System
initial q = record {
  pool = threadpool_init q;
  owner = nobody;
  pc = λ _. locking;
  main = outside;
  accepted = [];
  started = [];
}

pub data Reach (q : List Task) : System → Type 0 where
  start : Reach q (initial q)
  later : {s t : System} → Reach q s → Step s t → Reach q t
