-- ===== src/Exercises/Casting.antt =====
-- 01-lowlevel-academy-c/10_data_types/type_casting.c. A number in memory is the one that
-- its bits make without a sign.
use lowlevel_academy.Prelude.{
  ℕ, suc, ◌+◌, ◌-◌, ◌*◌, ◌%◌, Bool, true, false, ltb, leb, if◌then◌else◌,
}
use lowlevel_academy.Exercises.Conditionals.{ℤ, pos, negsuc}
pub mod Laws

-- What the bits `x` mean in a signed type of `size` values.
unfoldable pub signed : (size x : ℕ) → ℤ
signed size x = if ltb (x * 2) size then pos x else negsuc (size - x - 1)

-- `(int) x` of an unsigned int: the same bits.
unfoldable pub int_of_unsigned : ℕ → ℕ
int_of_unsigned x = x

-- `(short) x` of an unsigned int.
unfoldable pub short_of_unsigned : ℕ → ℕ
short_of_unsigned x = x % 65536

-- `(int) s` of a short.
unfoldable pub int_of_short : ℕ → ℕ
int_of_short s = if ltb s 32768 then s else s + 4294901760
