-- ===== src/Exercises/Functions.antt =====
-- 01-lowlevel-academy-c/05_control_flow_structures/functions.c.
use lowlevel_academy.Prelude.{ℕ, ◌+◌, ◌-◌, Bool, Option, none, some, ltb, if◌then◌else◌}
use lowlevel_academy.Exercises.Conditionals.{ℤ, pos, negsuc}
pub mod Laws

infixl 20 ◌+ℤ◌
abbrev pub ◌+ℤ◌ : ℤ → ℤ → ℤ
pos a +ℤ pos b = pos (a + b)
pos a +ℤ negsuc b = if ltb b a then pos (a - b - 1) else negsuc (b - a)
negsuc a +ℤ pos b = if ltb a b then pos (b - a - 1) else negsuc (a - b)
negsuc a +ℤ negsuc b = negsuc (a + b + 1)

-- The magnitude that the cases of `ℤ` hold is below 2 ^ 31 for an int of either sign.
abbrev pub fits_int : ℤ → Bool
fits_int (pos a) = ltb a 2147483648
fits_int (negsuc a) = ltb a 2147483648

-- `none`: the sum overflows.
unfoldable pub add : ℤ → ℤ → Option ℤ
add x y = if fits_int (x +ℤ y) then some (x +ℤ y) else none

-- What `main` prints.
unfoldable pub main : Option ℤ
unfolding add
main = add (pos 1) (pos 2)
