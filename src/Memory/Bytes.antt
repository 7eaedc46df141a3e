-- ===== src/Memory/Bytes.antt =====
-- Lists of numbers that are bytes: each is below 256, as what a `char` or a file holds.
use lowlevel_academy.Prelude.{ℕ, zero, suc, ◌<◌, List, [], ◌∷◌, drop}

abbrev pub AllBytes : List ℕ → Type 0
AllBytes [] = Unit {0}
AllBytes (x ∷ xs) = (x < 256) × AllBytes xs

pub drop-AllBytes : (n : ℕ) (xs : List ℕ) → AllBytes xs → AllBytes (drop n xs)
drop-AllBytes zero xs v = v
drop-AllBytes (suc n) [] v = tt
drop-AllBytes (suc n) (x ∷ xs) v = drop-AllBytes n xs v.1
