-- ===== src/Exercises/Conditionals.antt =====
-- The branches of 01-lowlevel-academy-c/05_control_flow_structures/conditionals.c, on the number that
-- was read.
use lowlevel_academy.Prelude.{ℕ, Bool, false, leb, if◌then◌else◌}

pub data ℤ : Type 0 where
  pos : ℕ → ℤ
  negsuc : ℕ → ℤ

pub data Weather : Type 0 where
  hot mild cold : Weather

-- The number is at least `n`.
unfoldable pub at_least : (n : ℕ) → ℤ → Bool
at_least n (pos x) = leb n x
at_least n (negsuc x) = false

unfoldable pub weather : ℤ → Weather
unfolding at_least
weather temp = if at_least 70 temp then hot else if at_least 30 temp then mild else cold
