-- ===== src/Exercises/ThreadKey.antt =====
-- 03-posix-threads/04_advanced_pthread_concepts/thread_specific_data/pthread_key.c: two threads that
-- each keep an array under a key, whose destructor frees it when the thread ends. A thread's array is
-- its own, so its loops are one step each. pthread_setspecific is taken to succeed, as the program
-- does not look at its result.
use lowlevel_academy.Prelude.{
  ◌≢◌, ℕ, zero, suc, ◌+◌, ◌≡◌, List, [], ◌∷◌, ◌++◌, Option, none, some, tally, map, set, get_elem?,
  replicate,
}
pub mod Sound
pub mod Ending

-- `my_array[i] = i`, from `i` on, for the rounds that are left.
unfoldable pub fill : (i rounds : ℕ) → List (Option ℕ) → List (Option ℕ)
fill i zero cells = cells
fill i (suc n) cells = fill (i + 1) n (set cells i (some i))

-- Where a thread stands in `thread_func`, with `my_array` as far as it is still in use, and what the
-- array holds: a cell is `none` before it is written. Behind `returned` the destructor is called.
pub data Pc : Type 0 where
  at_malloc : Pc
  at_set at_fill : (my_array : Option ℕ) → Pc
  at_print : (cells : List (Option ℕ)) → Pc
  returned ended : (printed : List (Option ℕ)) → Pc
  faulted : Pc

-- A thread and its value of `key`.
pub record Thread : Type 0 where
  pub pc : Pc
  pub value : Option ℕ

-- A step of one thread, and what it makes of the blocks that are allocated. A thread that writes
-- through NULL faults; `free` is given a block that is allocated.
pub data Turn (live : List ℕ) (w : Thread) : List ℕ → Thread → Type 0 where
  mallocs :
      (b : ℕ)
      → w.pc ≡ at_malloc
      → tally b live ≡ 0
      → Turn live w (b ∷ live) (record w { pc = at_set (some b) })
  malloc_fails : w.pc ≡ at_malloc → Turn live w live (record w { pc = at_set none })
  sets : (a : Option ℕ) → w.pc ≡ at_set a → Turn live w live (record { pc = at_fill a; value = a })
  fills :
      (b : ℕ)
      → w.pc ≡ at_fill (some b)
      → Turn live w live (record w { pc = at_print (fill 0 10 (replicate 10 none)) })
  faults : w.pc ≡ at_fill none → Turn live w live (record w { pc = faulted })
  prints :
      (cells : List (Option ℕ))
      → w.pc ≡ at_print cells
      → Turn live w live (record w { pc = returned cells })
  destroys :
      (out : List (Option ℕ)) (b : ℕ) (before after : List ℕ)
      → w.pc ≡ returned out
      → w.value ≡ some b
      → live ≡ before ++ b ∷ after
      → Turn live w (before ++ after) (record { pc = ended out; value = none })

pub record System : Type 0 where
  pub live : List ℕ
  pub threads : List Thread

-- No thread has faulted, which ends the process.
unfoldable pub AllAlive : List Thread → Type 0
AllAlive [] = Unit {0}
AllAlive (w ∷ ws) = (w.pc ≢ faulted) × AllAlive ws

pub data Step (s : System) : System → Type 0 where
  turn :
      (before after : List Thread) (w w' : Thread) (live : List ℕ)
      → AllAlive s.threads
      → s.threads ≡ before ++ w ∷ after
      → Turn s.live w live w'
      → Step s (record { live = live; threads = before ++ w' ∷ after })

abbrev pub initial : System
initial = record { live = []; threads = replicate 2 (record { pc = at_malloc; value = none }) }

pub data Reach : System → Type 0 where
  start : Reach initial
  later : {r s : System} → Reach r → Step r s → Reach s
