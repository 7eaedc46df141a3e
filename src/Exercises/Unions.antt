-- ===== src/Exercises/Unions.antt =====
-- 01-lowlevel-academy-c/06_structs_unions/unions.c: an int, a char and a short in the same four bytes.
use lowlevel_academy.Prelude.{◌∷◌, ℕ, take, drop, List, []}
use lowlevel_academy.Host.{Endian, store32, load16}
pub mod Laws

-- What the members `s` and `c` show, as unsigned numbers, which is how they are printed.
pub record Shown : Type 0 where
  pub s : ℕ
  pub c : ℕ

-- The first byte.
unfoldable pub load8 : List ℕ → ℕ
load8 [] = 0
load8 (x ∷ bs) = x

-- `u.x = x`, and the two members are read.
unfoldable pub show : Endian → (x : ℕ) → Shown
unfolding load8
show e x = record { s = load16 e (store32 e x); c = load8 (store32 e x) }
