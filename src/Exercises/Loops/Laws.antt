-- ===== src/Exercises/Loops/Laws.antt =====
-- The three loops do the same.
use mathlib.Core.Path.{fun_ext}
use lowlevel_academy.Prelude.{
  if◌then◌else◌, ap, ◌∙◌, set-behind, get_elem?-set_self, ℕ, zero, suc, ◌+◌, ◌≡◌, ◌<◌, ◌≤◌, List,
  [], ◌∷◌, ◌++◌, Option, some, length, set, ltb, lt→ltb, arith, refl, true, false, length-append,
  append_assoc, sym,
}
use lowlevel_academy.Exercises.Loops.{
  do_loop, while_loop, Line, Looped, print, print_at, body, for_loop,
}

-- The numbers from `i` on, `n` of them, and the lines that show them.
abbrev pub from : (i n : ℕ) → List ℕ
from i zero = []
from i (suc n) = i ∷ from (i + 1) n

abbrev pub lines_from : (i n : ℕ) → List Line
lines_from i zero = []
lines_from i (suc n) = record { number = i; id = i } ∷ lines_from (i + 1) n

ends : (max i : ℕ) → max ≤ i → ltb i max ≡ false
ends max i h = ground arith

body_lem :
    (i x : ℕ) (done ids all : List ℕ) (next : List ℕ → Option Looped)
    → i ≡ length done
    → all ≡ done ++ x ∷ ids
    → body i all next ≡ print (record { number = i; id = i }) (next (done ++ i ∷ ids))
unfolding body print_at
body_lem i x done ids all next at q =
    let inside : i < length all = rw (at, q) (omega (arith, length-append done (x ∷ ids))) in
    let put : set all i i ≡ done ++ i ∷ ids = rw (at, q) (set-behind done ids x (length done)) in
    rw (lt→ltb i (length all) inside, get_elem?-set_self all i i inside, put) refl

-- Where a loop stands in the array: behind `done`, before `rest`.
record IsAt (max i : ℕ) (done rest all : List ℕ) : Type 0 where
  at : i ≡ length done
  bound : max ≡ i + length rest
  split : all ≡ done ++ rest

abbrev filled : (i : ℕ) → (done rest : List ℕ) → Looped
filled i done rest = record {
  ids = done ++ from i (length rest);
  lines = lines_from i (length rest);
}

next-IsAt :
    (max i x : ℕ) (done rest all : List ℕ)
    → IsAt max i done (x ∷ rest) all
    → IsAt max (i + 1) (done ++ i ∷ []) rest (done ++ i ∷ rest)
next-IsAt max i x done rest all v = record {
  at = omega (arith, v.at, length-append done (i ∷ []));
  bound = omega (arith, v.bound);
  split = sym (append_assoc done (i ∷ []) rest);
}

filled-next :
    (i x : ℕ) (done rest : List ℕ)
    → print (record { number = i; id = i }) (some (filled (i + 1) (done ++ i ∷ []) rest))
      ≡ some (filled i done (x ∷ rest))
filled-next i x done rest = rw (append_assoc done (i ∷ []) (from (i + 1) (length rest))) refl

for_lem :
    (max fuel i : ℕ) (done rest all : List ℕ)
    → IsAt max i done rest all
    → length rest < fuel
    → for_loop max fuel i all ≡ some (filled i done rest)
unfolding for_loop
for_lem max zero i done rest all v h = absurd (omega (arith, h))
for_lem max (suc fuel) i done [] all v h = rw (ends max i (omega (arith, v.bound)), v.split) refl
for_lem max (suc fuel) i done (x ∷ rest) all v h =
    let again : ltb i max ≡ true = lt→ltb i max (omega (arith, v.bound)) in
    let loop =
      for_lem max fuel (i + 1) (done ++ i ∷ []) rest (done ++ i ∷ rest)
        (next-IsAt max i x done rest all v) (omega (arith, h)) in
    rw (again, body_lem i x done rest all (λ ids. for_loop max fuel (i + 1) ids) v.at v.split, loop)
      (filled-next i x done rest)

while_for : (max fuel i : ℕ) (ids : List ℕ) → while_loop max fuel i ids ≡ for_loop max fuel i ids
unfolding while_loop for_loop
while_for max zero i ids = refl
while_for max (suc fuel) i ids =
    ap (λ next. if ltb i max then body i ids next else some (record { ids = ids; lines = [] }))
      (fun_ext (λ ids'. while_for max fuel (i + 1) ids'))

do_lem :
    (max fuel i x : ℕ) (done rest all : List ℕ)
    → IsAt max i done (x ∷ rest) all
    → length rest < fuel
    → do_loop max fuel i all ≡ some (filled i done (x ∷ rest))
unfolding do_loop
do_lem max zero i x done rest all v h = absurd (omega (arith, h))
do_lem max (suc fuel) i x done [] all v h =
    rw (body_lem i x done [] all _ v.at v.split, ends max (i + 1) (omega (arith, v.bound))) refl
do_lem max (suc fuel) i x done (y ∷ rest) all v h =
    let again : ltb (i + 1) max ≡ true = lt→ltb (i + 1) max (omega (arith, v.bound)) in
    let loop =
      do_lem max fuel (i + 1) y (done ++ i ∷ []) rest (done ++ i ∷ y ∷ rest)
        (next-IsAt max i x done (y ∷ rest) all v) (omega (arith, h)) in
    rw (body_lem i x done (y ∷ rest) all _ v.at v.split, again, loop)
      (filled-next i x done (y ∷ rest))

-- On any array of at least one entry, with fuel for one round more than it has entries: the `for`
-- loop, the `while` loop and the `do` loop each return, write into each entry its index, and print
-- the same lines.
pub loops_lem :
    (fuel x : ℕ) (ids : List ℕ)
    → length (x ∷ ids) < fuel
    → (for_loop (length (x ∷ ids)) fuel 0 (x ∷ ids) ≡ some (filled 0 [] (x ∷ ids)))
      × (while_loop (length (x ∷ ids)) fuel 0 (x ∷ ids)
          ≡ for_loop (length (x ∷ ids)) fuel 0 (x ∷ ids))
      × (do_loop (length (x ∷ ids)) fuel 0 (x ∷ ids) ≡ for_loop (length (x ∷ ids)) fuel 0 (x ∷ ids))
loops_lem fuel x ids h =
    let start : IsAt (length (x ∷ ids)) 0 [] (x ∷ ids) (x ∷ ids) = record {
      at = refl;
      bound = omega arith;
      split = refl;
    } in
    let looped = for_lem (length (x ∷ ids)) fuel 0 [] (x ∷ ids) (x ∷ ids) start h in
    (
      looped,
      while_for (length (x ∷ ids)) fuel 0 (x ∷ ids),
      do_lem (length (x ∷ ids)) fuel 0 x [] ids (x ∷ ids) start (omega (arith, h)) ∙ sym looped,
    )
