-- ===== src/Exercises/Unions/Laws.antt =====
-- Which part of the int the other members show.
use lowlevel_academy.Prelude.{ap₂, ℕ, ◌≡◌, ◌<◌, ◌%◌, ◌/◌, arith}
use lowlevel_academy.Host.{little, big, store32, load16}
use lowlevel_academy.Exercises.Unions.{Shown, show}

abbrev pub shown : (s c : ℕ) → Shown
shown s c = record { s = s; c = c }

-- For any number that an int holds: on a little-endian host the short shows its low 16 bits and the
-- char its low 8 bits, and on a big-endian host they show the high 16 and the high 8 bits.
pub show_lem :
    (x : ℕ)
    → x < 4294967296
    → (show little x ≡ shown (x % 65536) (x % 256))
      × (show big x ≡ shown (x / 65536) (x / 16777216))
unfolding show store32 load16
show_lem x h =
    (ap₂ shown (omega arith) (omega arith), ap₂ shown (omega (arith, h)) (omega (arith, h)))
