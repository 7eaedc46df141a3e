-- ===== src/Arguments.antt =====
-- 03-posix-threads/02_pthread_basics/main.c: `main` starts `t` threads (THREAD_COUNT, 10) and hands
-- each of them the same address, that of a number which it goes on to change. A thread's load of the
-- number and its printf are one step, and no access sees a part of another.
use lowlevel_academy.Prelude.{
  ℕ, suc, ◌≡◌, ◌<◌, List, [], ◌∷◌, ◌++◌, Option, none, some, length, get_elem?,
}
pub mod Late
pub mod Outcomes

-- The next thing that `main` does.
pub data Main : Type 0 where
  store create : Main
  join : (j : ℕ) → Main
  returned failed : Main

-- `threads`: what each of the threads that are created has printed.
pub record System : Type 0 where
  pub main : Main
  pub arg1 : ℕ
  pub threads : List (Option ℕ)

-- `garbage`: what `myargs` holds when `main` begins.
abbrev pub initial : (garbage : ℕ) → System
initial garbage = record { main = store; arg1 = garbage; threads = [] }

-- The process has not ended.
unfoldable pub IsRunning : Main → Type 0
IsRunning returned = ⊥
IsRunning failed = ⊥
IsRunning _ = Unit {0}

pub data Step (t : ℕ) (s : System) : System → Type 0 where
  stores :
      s.main ≡ store
      → length s.threads < t
      → Step t s (record s { main = create; arg1 = length s.threads })
  creates : s.main ≡ create → Step t s (record s { main = store; threads = s.threads ++ none ∷ [] })
  create_fails : s.main ≡ create → Step t s (record s { main = failed })
  all_created : s.main ≡ store → length s.threads ≡ t → Step t s (record s { main = join 0 })
  joins :
      (j v : ℕ)
      → s.main ≡ join j
      → get_elem? s.threads j ≡ some (some v)
      → Step t s (record s { main = join (suc j) })
  returns : s.main ≡ join t → Step t s (record s { main = returned })
  prints :
      (before after : List (Option ℕ))
      → IsRunning s.main
      → s.threads ≡ before ++ none ∷ after
      → Step t s (record s { threads = before ++ some s.arg1 ∷ after })

pub data Reach (t garbage : ℕ) : System → Type 0 where
  start : Reach t garbage (initial garbage)
  later : {r s : System} → Reach t garbage r → Step t r s → Reach t garbage s

-- The program returns 0, and its threads have printed `vs`.
unfoldable pub Prints : (t garbage : ℕ) → (vs : List (Option ℕ)) → Type 0
Prints t garbage vs = (s : System) × Reach t garbage s × (s.main ≡ returned) × (s.threads ≡ vs)
