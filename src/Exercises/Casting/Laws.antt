-- ===== src/Exercises/Casting/Laws.antt =====
-- What the conversions do to the numbers.
use lowlevel_academy.Prelude.{ℕ, ◌≡◌, ◌<◌, arith}
use lowlevel_academy.Exercises.Casting.{signed, int_of_short, short_of_unsigned}

-- A short keeps its value as an int, its sign included, and back in a short it is what it was.
pub short_lem :
    (s : ℕ)
    → s < 65536
    → (signed 4294967296 (int_of_short s) ≡ signed 65536 s)
      × (short_of_unsigned (int_of_short s) ≡ s)
unfolding signed int_of_short short_of_unsigned
short_lem s h = (ground arith, ground arith)
