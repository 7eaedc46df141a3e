-- ===== src/Tests/Programs.antt =====
-- The theorems about the smaller programs, at concrete inputs.
use lowlevel_academy.Prelude.{
  none, replicate, refl, ◌≢◌, ◌⊎◌, ℕ, Option, List, map, ◌++◌, ◌↔◌, ◌+◌, ◌≡◌, ◌∷◌, [], some, true,
  length, arith,
}
use lowlevel_academy.Host.{little}
use lowlevel_academy.FileIo.Header as Header
use lowlevel_academy.FileIo.Header.{DatabaseHeader, header_lines, return_zero}
use lowlevel_academy.FileIo.Metadata as Metadata
use lowlevel_academy.FileIo.Metadata.Laws.{image, opened, checked, headers_lem}
use lowlevel_academy.Arguments.{Prints}
use lowlevel_academy.Exercises.ThreadKey.{
  System, Step, AllAlive, start, Thread, Pc, at_malloc, faulted, returned, Turn, Reach, later, turn,
  fill, prints, fills, sets, mallocs,
}
use lowlevel_academy.Exercises.ThreadKey.Ending.{IsOver, key_lem}
use lowlevel_academy.Arguments.Outcomes.{AllBetween, arguments_lem}

abbrev two_employees : DatabaseHeader
two_employees = record { version = 1; employees = 2; file_size = 9 }

abbrev rest : List ℕ
rest = 7 ∷ []

-- A file of nine bytes.
headers_lem_example :
    (Header.main little 2 (some (opened (image little two_employees ++ rest)))
      ≡ record { code = return_zero; lines = header_lines two_employees; closed = true })
    × (Metadata.main little true 2 (some (opened (image little two_employees ++ rest)))
        ≡ checked two_employees (8 + length rest))
headers_lem_example =
    headers_lem little two_employees rest
      (record { version = omega arith; employees = omega arith; file_size = omega arith })

abbrev both : List (Option ℕ)
both = some 1 ∷ some 1 ∷ []

-- Of two threads, both print 1.
arguments_lem_example :
    Prints 2 0 both ↔ ((vs : List ℕ) × (both ≡ map some vs) × (length vs ≡ 2) × AllBetween 2 0 vs)
arguments_lem_example = arguments_lem 2 0 both

abbrev waiting : Thread
waiting = record { pc = at_malloc; value = none }

-- The first thread at `p`, and the second before its call of `malloc`.
abbrev first_at : (live : List ℕ) → Pc → (value : Option ℕ) → System
first_at live p v = record { live = live; threads = record { pc = p; value = v } ∷ waiting ∷ [] }

first_step :
    {p q : Pc} {v w : Option ℕ} (live live' : List ℕ)
    → p ≢ faulted
    → Turn live (record { pc = p; value = v }) live' (record { pc = q; value = w })
    → Reach (first_at live p v)
    → Reach (first_at live' q w)
unfolding AllAlive
first_step live live' n t r = later r (turn [] (waiting ∷ []) _ _ live' (n, ((λ q. cc), tt)) refl t)

-- The first thread has printed its array in block 5, and has still to free it.
first_returned : Reach (first_at (5 ∷ []) (returned (fill 0 10 (replicate 10 none))) (some 5))
first_returned =
    first_step (5 ∷ []) (5 ∷ []) (λ q. cc) (prints _ refl)
      (first_step (5 ∷ []) (5 ∷ []) (λ q. cc) (fills 5 refl)
        (first_step (5 ∷ []) (5 ∷ []) (λ q. cc) (sets (some 5) refl)
          (first_step [] (5 ∷ []) (λ q. cc) (mallocs 5 refl refl) start)))

first_returned-AllAlive :
    AllAlive (first_at (5 ∷ []) (returned (fill 0 10 (replicate 10 none))) (some 5)).threads
unfolding AllAlive
first_returned-AllAlive = ((λ q. cc), ((λ q. cc), tt))

key_lem_example :
    ((s : System) × Step (first_at (5 ∷ []) (returned (fill 0 10 (replicate 10 none))) (some 5)) s)
    ⊎ IsOver (first_at (5 ∷ []) (returned (fill 0 10 (replicate 10 none))) (some 5))
key_lem_example =
    key_lem (first_at (5 ∷ []) (returned (fill 0 10 (replicate 10 none))) (some 5)) first_returned
      first_returned-AllAlive
