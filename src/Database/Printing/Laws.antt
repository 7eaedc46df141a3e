-- ===== src/Database/Printing/Laws.antt =====
-- What `list_employees` prints of employees that were added.
use lowlevel_academy.Prelude.{ℕ, ◌+◌, ◌≡◌, refl, List, [], ◌∷◌, map, some, length}
use lowlevel_academy.Database.{Header}
use lowlevel_academy.Database.Person.{Person, ArePersons, recorded, c_string-strncpy}
use lowlevel_academy.Database.Printing.{Block, print_block, blocks_from, list_employees}

-- The lines for persons in order, numbered from `i` on.
abbrev pub persons_from : ℕ → List Person → List Block
persons_from i [] = []
persons_from i (x ∷ xs) =
    record { number = i; name = x.name; address = x.address; hours = x.hours }
    ∷ persons_from (i + 1) xs

blocks_from-recorded :
    (i : ℕ) (xs : List Person)
    → ArePersons xs
    → blocks_from i (length xs) (map recorded xs) ≡ some (persons_from i xs)
unfolding blocks_from print_block
blocks_from-recorded i [] v = refl
blocks_from-recorded i (x ∷ xs) v =
    rw
      (
        c_string-strncpy 256 x.name v.0.name_clean v.0.name_short,
        c_string-strncpy 256 x.address v.0.address_clean v.0.address_short,
        blocks_from-recorded (i + 1) xs v.1,
      )
      refl

-- Persons that were stored are printed with their own texts and hours, in order.
pub list_employees-recorded :
    (h : Header) (xs : List Person)
    → ArePersons xs
    → h.count ≡ length xs
    → list_employees h (map recorded xs) ≡ some (persons_from 0 xs)
unfolding list_employees
list_employees-recorded h xs v p = rw p (blocks_from-recorded 0 xs v)
