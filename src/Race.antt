-- ===== src/Race.antt =====
-- 03-posix-threads/03_synchronisation_and_locks/race.c: threads that raise one counter with no lock.
use lowlevel_academy.Prelude.{ℕ, zero, suc, ◌+◌, ◌%◌, ◌≡◌, List, some, get_elem?, set, replicate}
pub mod Lost

-- Where a thread stands in `thread_target`. `counter++` is a load and a store: `adding k v` has
-- loaded `v`, with `k` rounds behind this one.
pub data Pc : Type 0 where
  looping : ℕ → Pc
  adding : ℕ → ℕ → Pc
  finished : Pc

pub record System : Type 0 where
  pub counter : ℕ
  pub pcs : List Pc

-- A step of one of the threads. `counter` is an `int`, kept as its 32 bits.
pub data Step (s : System) : System → Type 0 where
  load :
      (i k : ℕ)
      → get_elem? s.pcs i ≡ some (looping (suc k))
      → Step s (record s { pcs = set s.pcs i (adding k s.counter) })
  store :
      (i k v : ℕ)
      → get_elem? s.pcs i ≡ some (adding k v)
      → Step s (record { counter = (v + 1) % 4294967296; pcs = set s.pcs i (looping k) })
  finish :
      (i : ℕ)
      → get_elem? s.pcs i ≡ some (looping 0)
      → Step s (record s { pcs = set s.pcs i finished })

-- `t` threads of `n` rounds, as `main` creates them.
abbrev pub initial : (n t : ℕ) → System
initial n t = record { counter = 0; pcs = replicate t (looping n) }

-- The systems that steps lead to, in any order of the threads.
pub data Reach (n t : ℕ) : System → Type 0 where
  start : Reach n t (initial n t)
  later : {r s : System} → Reach n t r → Step r s → Reach n t s
