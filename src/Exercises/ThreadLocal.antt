-- ===== src/Exercises/ThreadLocal.antt =====
-- 03-posix-threads/04_advanced_pthread_concepts/thread_specific_data/thread_local_storage.c: threads
-- that each increment a variable of their own. A thread that `main` has not created is one that has
-- not started; `pthread_create` is taken to succeed, as main does not look at its results.
use lowlevel_academy.Prelude.{ℕ, ◌+◌, ◌≡◌, List, [], ◌∷◌, ◌++◌, replicate}
pub mod Laws

abbrev pub thread_count : ℕ
thread_count = 10

-- Where a thread stands in `wait_for_event`: before the load and before the store of `x_thd++`,
-- before the printf, and behind it, with what it printed.
pub data Pc : Type 0 where
  at_load : Pc
  at_store : (loaded : ℕ) → Pc
  at_print : Pc
  ended : (printed : ℕ) → Pc

-- A thread and its copy of `x_thd`.
pub record Thread : Type 0 where
  pub pc : Pc
  pub x_thd : ℕ

-- A step of one thread.
pub data Turn (w : Thread) : Thread → Type 0 where
  loads : w.pc ≡ at_load → Turn w (record w { pc = at_store w.x_thd })
  stores : (x : ℕ) → w.pc ≡ at_store x → Turn w (record { pc = at_print; x_thd = x + 1 })
  prints : w.pc ≡ at_print → Turn w (record w { pc = ended w.x_thd })

pub data Step (ws : List Thread) : List Thread → Type 0 where
  turn :
      (before after : List Thread) (w w' : Thread)
      → ws ≡ before ++ w ∷ after
      → Turn w w'
      → Step ws (before ++ w' ∷ after)

abbrev pub initial : List Thread
initial = replicate thread_count (record { pc = at_load; x_thd = 0 })

pub data Reach : List Thread → Type 0 where
  start : Reach initial
  later : {ws ws' : List Thread} → Reach ws → Step ws ws' → Reach ws'
