-- ===== src/Exercises/Functions/Laws.antt =====
-- The sum that `add` returns.
use lowlevel_academy.Prelude.{
  inl, inr, ◌⊎◌, Bool-cases, ℕ, ◌+◌, ◌-◌, ◌≡◌, ◌≤◌, ◌<◌, true, false, none, some, refl, arith,
}
use lowlevel_academy.Exercises.Conditionals.{ℤ, pos, negsuc}
use lowlevel_academy.Exercises.Functions.{◌+ℤ◌, fits_int, add}

-- The place of an int among all ints.
abbrev pub place : ℤ → ℕ
place (pos a) = 2147483648 + a
place (negsuc a) = 2147483647 - a

place-sum :
    (x y : ℤ)
    → fits_int x ≡ true
    → fits_int y ≡ true
    → fits_int (x +ℤ y) ≡ true
    → place (x +ℤ y) + 2147483648 ≡ place x + place y
place-sum (pos a) (pos b) h k e = ground arith
place-sum (pos a) (negsuc b) h k e = ground arith
place-sum (negsuc a) (pos b) h k e = ground arith
place-sum (negsuc a) (negsuc b) h k e = ground arith

out_of_range :
    (x y : ℤ)
    → fits_int x ≡ true
    → fits_int y ≡ true
    → fits_int (x +ℤ y) ≡ false
    → (place x + place y < 2147483648) ⊎ (6442450944 ≤ place x + place y)
out_of_range (pos a) (pos b) h k e = inr (ground arith)
out_of_range (pos a) (negsuc b) h k e = absurd (ground arith)
out_of_range (negsuc a) (pos b) h k e = absurd (ground arith)
out_of_range (negsuc a) (negsuc b) h k e = inl (ground arith)

-- For any two ints: `add` returns their sum if that is an int, and overflows otherwise.
pub add_lem :
    (x y : ℤ)
    → fits_int x ≡ true
    → fits_int y ≡ true
    → ((z : ℤ) × (add x y ≡ some z) × (place z + 2147483648 ≡ place x + place y))
      ⊎ ((add x y ≡ none) × ((place x + place y < 2147483648) ⊎ (6442450944 ≤ place x + place y)))
unfolding add
add_lem x y h k = elim (Bool-cases (fits_int (x +ℤ y))) [
  | inl e ↦ inl (x +ℤ y, rw e refl, place-sum x y h k e)
  | inr e ↦ inr (rw e refl, out_of_range x y h k e)
]
