-- ===== src/Mutex.antt =====
-- 03-posix-threads/03_synchronisation_and_locks/mutex.c: threads that raise one counter, each of them
-- under the lock for all of its rounds.
use lowlevel_academy.Prelude.{
  ℕ, zero, suc, ◌+◌, ◌%◌, ◌≡◌, Bool, true, false, List, some, get_elem?, set, replicate,
}
pub mod Total
pub mod Progress
pub mod Steps

abbrev pub thread_count : ℕ
thread_count = 10

-- The rounds of the loop in `thread_target`.
abbrev pub rounds : ℕ
rounds = 1000000

-- Where a thread stands in `thread_target`. `counter++` is a load and a store: `adding k v` has
-- loaded `v`, with `k` rounds behind this one.
pub data Pc : Type 0 where
  starting : Pc
  looping : ℕ → Pc
  adding : ℕ → ℕ → Pc
  finished : Pc

pub record System : Type 0 where
  pub locked : Bool
  pub counter : ℕ
  pub pcs : List Pc

-- A step of one of the threads, of `n` rounds each. `counter` is an `int`, kept as its 32 bits.
pub data Step (n : ℕ) (s : System) : System → Type 0 where
  lock :
      (i : ℕ)
      → get_elem? s.pcs i ≡ some starting
      → s.locked ≡ false
      → Step n s (record s { locked = true; pcs = set s.pcs i (looping n) })
  load :
      (i k : ℕ)
      → get_elem? s.pcs i ≡ some (looping (suc k))
      → Step n s (record s { pcs = set s.pcs i (adding k s.counter) })
  store :
      (i k v : ℕ)
      → get_elem? s.pcs i ≡ some (adding k v)
      → Step n s (record s { counter = (v + 1) % 4294967296; pcs = set s.pcs i (looping k) })
  unlock :
      (i : ℕ)
      → get_elem? s.pcs i ≡ some (looping 0)
      → Step n s (record s { locked = false; pcs = set s.pcs i finished })

-- The threads that `main` creates.
abbrev pub initial : ℕ → System
initial t = record { locked = false; counter = 0; pcs = replicate t starting }

-- The systems that `t` threads of `n` rounds can come to, in any order of their steps.
pub data Reach (n t : ℕ) : System → Type 0 where
  start : Reach n t (initial t)
  later : {r s : System} → Reach n t r → Step n r s → Reach n t s
