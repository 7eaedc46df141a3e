-- ===== src/Exercises/Loops.antt =====
-- 01-lowlevel-academy-c/05_control_flow_structures/loops.c. The loops count against the length of the
-- array, MAX_IDS, and have fuel; `none` is an access outside the array, or fuel that is spent.
use lowlevel_academy.Prelude.{
  ◌++◌, ℕ, zero, suc, ◌+◌, List, [], ◌∷◌, Option, none, some, length, set, get_elem?, replicate,
  ltb, if◌then◌else◌,
}
pub mod Laws

-- The line "i: ids[i]".
pub record Line : Type 0 where
  pub number : ℕ
  pub id : ℕ

pub record Looped : Type 0 where
  pub ids : List ℕ
  pub lines : List Line

abbrev pub print : Line → Option Looped → Option Looped
print l none = none
print l (some r) = some (record r { lines = l ∷ r.lines })

-- The line of `ids[i]`, in front of what comes after it.
unfoldable pub print_at : ℕ → Option ℕ → Option Looped → Option Looped
print_at i none rest = none
print_at i (some id) rest = print (record { number = i; id = id }) rest

-- The body, up to what comes after it.
unfoldable pub body : (i : ℕ) → (ids : List ℕ) → (next : List ℕ → Option Looped) → Option Looped
unfolding print_at
body i ids next =
    if ltb i (length ids) then print_at i (get_elem? (set ids i i) i) (next (set ids i i)) else none

-- `for (i = 0; i < MAX_IDS; i++)`, from `i` on.
unfoldable pub for_loop : (max_ids fuel i : ℕ) → List ℕ → Option Looped
unfolding body
for_loop max_ids zero i ids = none
for_loop max_ids (suc fuel) i ids =
    let next = body i ids (λ ids'. for_loop max_ids fuel (i + 1) ids') in
    if ltb i max_ids then next else some (record { ids = ids; lines = [] })

-- `while (i < MAX_IDS)`, whose body ends with `i++`.
unfoldable pub while_loop : (max_ids fuel i : ℕ) → List ℕ → Option Looped
unfolding body
while_loop max_ids zero i ids = none
while_loop max_ids (suc fuel) i ids =
    let next = body i ids (λ ids'. while_loop max_ids fuel (i + 1) ids') in
    if ltb i max_ids then next else some (record { ids = ids; lines = [] })

-- `do … while (i < MAX_IDS)`: the test is behind the body.
unfoldable pub do_loop : (max_ids fuel i : ℕ) → List ℕ → Option Looped
unfolding body
do_loop max_ids zero i ids = none
do_loop max_ids (suc fuel) i ids = body i ids (λ ids'.
    let next = do_loop max_ids fuel (i + 1) ids' in
    if ltb (i + 1) max_ids then next else some (record { ids = ids'; lines = [] }))

-- The lines of one loop after another, each from 0 on, on the array that the last one left.
unfoldable pub followed : Option Looped → (next : List ℕ → Option Looped) → Option Looped
followed none next = none
followed (some r) next = elim (next r.ids) [
  | none ↦ none
  | some q ↦ some (record q { lines = r.lines ++ q.lines })
]

unfoldable pub main : (max_ids fuel : ℕ) → Option Looped
unfolding for_loop while_loop do_loop followed
main max_ids fuel =
    followed (for_loop max_ids fuel 0 (replicate max_ids 0))
      (λ ids. followed (while_loop max_ids fuel 0 ids) (λ ids'. do_loop max_ids fuel 0 ids'))
