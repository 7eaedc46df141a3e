-- ===== src/Semaphore.antt =====
-- 03-posix-threads/03_synchronisation_and_locks/semaphores.c: one thread waits for an event that
-- another one signals. `pthread_create` is taken to succeed, as main does not look at its results.
use lowlevel_academy.Prelude.{ℕ, suc, ◌+◌, ◌≡◌}
pub mod Order

-- Where a thread stands. The waiter: created, at `sem_wait`, behind it, and at its end.
pub data Waiter : Type 0 where
  not_created entering at_wait passed returned : Waiter

-- The signaller: created, asleep, at `sem_post`, and at its end.
pub data Signaller : Type 0 where
  not_started starting working at_post posted : Signaller

-- The next thing that `main` does, behind `sem_init`.
pub data Main : Type 0 where
  create_waiter create_signaller join_waiter join_signaller destroy done : Main

pub record System : Type 0 where
  pub sem : ℕ
  pub main : Main
  pub waiter : Waiter
  pub signaller : Signaller

abbrev pub initial : System
initial = record { sem = 0; main = create_waiter; waiter = not_created; signaller = not_started }

pub data Step (s : System) : System → Type 0 where
  creates_waiter :
      s.main ≡ create_waiter → Step s (record s { main = create_signaller; waiter = entering })
  creates_signaller :
      s.main ≡ create_signaller → Step s (record s { main = join_waiter; signaller = starting })
  joins_waiter :
      s.main ≡ join_waiter → s.waiter ≡ returned → Step s (record s { main = join_signaller })
  joins_signaller :
      s.main ≡ join_signaller → s.signaller ≡ posted → Step s (record s { main = destroy })
  destroys : s.main ≡ destroy → Step s (record s { main = done })
  enters : s.waiter ≡ entering → Step s (record s { waiter = at_wait })
  -- `sem_wait` blocks at 0.
  waits :
      (v : ℕ) → s.waiter ≡ at_wait → s.sem ≡ suc v → Step s (record s { sem = v; waiter = passed })
  returns : s.waiter ≡ passed → Step s (record s { waiter = returned })
  starts : s.signaller ≡ starting → Step s (record s { signaller = working })
  wakes : s.signaller ≡ working → Step s (record s { signaller = at_post })
  posts : s.signaller ≡ at_post → Step s (record s { sem = s.sem + 1; signaller = posted })

pub data Reach : System → Type 0 where
  start : Reach initial
  later : {r s : System} → Reach r → Step r s → Reach s
