-- ===== src/Cli/Edit/Adding.antt =====
-- `add_employee` of the command line program on a text of three parts.
use lowlevel_academy.Prelude.{ℕ, ◌+◌, ◌≡◌, refl, List, [], ◌∷◌, ◌++◌, some, none, arith, length}
use lowlevel_academy.Cstring.{strtok}
use lowlevel_academy.Database.{Header, Employee}
use lowlevel_academy.Database.Add.{new_employee}
use lowlevel_academy.Database.Add.Outcome.{set-resize}
use lowlevel_academy.Database.Add.Text.{Parts, IsPart, joined, strtok-part, strtok-part_last}
use lowlevel_academy.Cli.Edit.{put_split, split, reallocated, in_place, held, add_employee}

-- Three parts, none of them empty or with a comma. Any number of hours will do.
pub record AreParts (t : Parts) : Type 0 where
  pub name_part : IsPart t.name
  pub address_part : IsPart t.address
  pub hours_part : IsPart t.hours

split-joined :
    (t : Parts)
    → AreParts t
    → split (joined t)
      ≡ record { name = some t.name; address = some t.address; hours = some t.hours }
unfolding split
split-joined t v =
    rw
      (
        strtok-part t.name _ v.name_part,
        strtok-part t.address _ v.address_part,
        strtok-part_last t.hours v.hours_part,
      )
      refl

-- In an array that was grown where it is, for a count that was raised by one, the new employee
-- stands behind the old ones.
pub add_employee-in_place :
    (h : Header) (es : List Employee) (t : Parts)
    → AreParts t
    → length es + 1 ≡ h.count
    → add_employee h (reallocated in_place h.count (some es)) (joined t)
      ≡ some (es ++ new_employee t.name t.address t.hours ∷ [])
unfolding add_employee put_split reallocated new_employee
add_employee-in_place h es t v p =
    rw (split-joined t v)
      (ground (arith, set-resize es h.count (new_employee t.name t.address t.hours) p))

-- A name with nothing behind it makes `strncpy` read through NULL.
pub add_employee-name :
    (h : Header) (a : List Employee) (w : List ℕ)
    → IsPart w
    → add_employee h (held (some a)) w ≡ none
unfolding add_employee put_split split strtok
add_employee-name h a w v = rw (strtok-part_last w v) refl
