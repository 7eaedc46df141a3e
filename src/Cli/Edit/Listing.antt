-- ===== src/Cli/Edit/Listing.antt =====
-- `list_employees` of the command line program on employees that were added.
use lowlevel_academy.Prelude.{ℕ, ◌+◌, ◌≡◌, refl, List, [], ◌∷◌, map, some, length}
use lowlevel_academy.Database.{Header}
use lowlevel_academy.Database.Person.{Person, IsPerson, ArePersons, recorded, c_string-strncpy}
use lowlevel_academy.Cli.Edit.{Line, print_employee, list_from, list_employees}

-- The lines for persons in order, numbered from `i` on.
abbrev pub lines_from : ℕ → List Person → List Line
lines_from i [] = []
lines_from i (x ∷ xs) =
    record { number = i; name = x.name; address = x.address; hours = x.hours }
    ∷ lines_from (i + 1) xs

print_employee-recorded :
    (i : ℕ) (x : Person)
    → IsPerson x
    → print_employee i (recorded x)
      ≡ some (record { number = i; name = x.name; address = x.address; hours = x.hours })
unfolding print_employee
print_employee-recorded i x v =
    rw
      (
        c_string-strncpy 256 x.name v.name_clean v.name_short,
        c_string-strncpy 256 x.address v.address_clean v.address_short,
      )
      refl

list_from-recorded :
    (i : ℕ) (xs : List Person)
    → ArePersons xs
    → list_from i (length xs) (map recorded xs) ≡ some (lines_from i xs)
unfolding list_from
list_from-recorded i [] v = refl
list_from-recorded i (x ∷ xs) v =
    rw (print_employee-recorded i x v.0, list_from-recorded (i + 1) xs v.1) refl

pub list_employees-recorded :
    (h : Header) (xs : List Person)
    → ArePersons xs
    → h.count ≡ length xs
    → list_employees h (some (map recorded xs)) ≡ some (lines_from 0 xs)
unfolding list_employees
list_employees-recorded h xs v p = rw p (list_from-recorded 0 xs v)
