-- ===== src/Spinlock.antt =====
-- 03-posix-threads/03_synchronisation_and_locks/spinlock.c: mutex.c with a lock that a thread tries
-- again and again. The threads and what they share are those of Mutex.
use lowlevel_academy.Prelude.{ℕ, suc, ◌+◌, ◌%◌, ◌≡◌, true, false, some, get_elem?, set}
use lowlevel_academy.Mutex.{System, starting, looping, adding, finished, initial}
pub mod Refine

abbrev pub thread_count : ℕ
thread_count = 10

-- The rounds of the loop in `thread_target`.
abbrev pub rounds : ℕ
rounds = 1000000

-- A step of one of the threads, of `n` rounds each. A thread that finds the lock taken spins.
pub data Step (n : ℕ) (s : System) : System → Type 0 where
  lock :
      (i : ℕ)
      → get_elem? s.pcs i ≡ some starting
      → s.locked ≡ false
      → Step n s (record s { locked = true; pcs = set s.pcs i (looping n) })
  spin : (i : ℕ) → get_elem? s.pcs i ≡ some starting → s.locked ≡ true → Step n s s
  load :
      (i k : ℕ)
      → get_elem? s.pcs i ≡ some (looping (suc k))
      → Step n s (record s { pcs = set s.pcs i (adding k s.counter) })
  store :
      (i k v : ℕ)
      → get_elem? s.pcs i ≡ some (adding k v)
      → Step n s (record s { counter = (v + 1) % 4294967296; pcs = set s.pcs i (looping k) })
  unlock :
      (i : ℕ)
      → get_elem? s.pcs i ≡ some (looping 0)
      → Step n s (record s { locked = false; pcs = set s.pcs i finished })

-- The systems that `t` threads of `n` rounds can come to, in any order of their steps.
pub data Reach (n t : ℕ) : System → Type 0 where
  start : Reach n t (initial t)
  later : {r s : System} → Reach n t r → Step n r s → Reach n t s
