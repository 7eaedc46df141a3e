-- ===== src/Cli/Edit.antt =====
-- `add_employee` and `list_employees` of the command line program's parse.c, and what `main` does
-- around the first.
use lowlevel_academy.Prelude.{
  ℕ, zero, suc, ◌+◌, ◌-◌, ◌%◌, Bool, true, false, List, [], ◌∷◌, Option, none, some, set, ◌==◌,
  if◌then◌else◌,
}
use lowlevel_academy.Cstring.{strncpy, atoi, strtok, c_string}
use lowlevel_academy.Database.{Header, Employee, text_size}
use lowlevel_academy.Database.Add.{resize}
use lowlevel_academy.Cli.{Array, Base}
pub mod Adding
pub mod Listing

-- What `realloc (employees, n)` does: it returns NULL, or it grows the block where it is, or it
-- moves the block and frees the old one.
pub data Realloc : Type 0 where
  failed in_place moved : Realloc

-- `employees` of `main` after `realloc`: what it was or a grown array, or the address of a block that
-- was freed.
pub data Pointer : Type 0 where
  held : Array → Pointer
  freed : Pointer

-- The result of `realloc` is compared with NULL and dropped: `employees` is still the old pointer,
-- whose block `realloc` has freed if it moved it. With NULL, `realloc` makes a new block, and the
-- pointer is still NULL.
unfoldable pub reallocated : Realloc → ℕ → Array → Pointer
reallocated in_place n (some es) = held (some (resize n es))
reallocated moved n (some es) = freed
reallocated _ n a = held a

-- The three calls of `strtok`; a part that is missing is NULL.
pub record Split : Type 0 where
  pub name : Option (List ℕ)
  pub address : Option (List ℕ)
  pub hours : Option (List ℕ)

unfoldable pub split : List ℕ → Split
split s =
    let t = strtok s in
    let u = strtok t.rest in
    record { name = t.token; address = u.token; hours = (strtok u.rest).token }

-- `strncpy` and `atoi` of NULL are faults, and so is the write at index -1.
unfoldable pub put_parts :
    Header → List Employee → (name address hours : Option (List ℕ)) → Option (List Employee)
put_parts h es (some name) (some address) (some hours) =
    if h.count == 0
    then none
    else some (
        set es (h.count - 1) (record {
          name = strncpy text_size name;
          address = strncpy text_size address;
          hours = atoi hours;
        }))
put_parts h es _ _ _ = none

unfoldable pub put_split : Header → List Employee → Split → Option (List Employee)
unfolding put_parts
put_split h es s = put_parts h es s.name s.address s.hours

-- The array afterwards. The function returns STATUS_SUCCESS whenever it returns; it writes through
-- the pointer on every path, which is a fault at NULL and in a freed block.
unfoldable pub add_employee : Header → Pointer → List ℕ → Option (List Employee)
add_employee h (held (some es)) add_string = put_split h es (split add_string)
add_employee h (held none) add_string = none
add_employee h freed add_string = none

-- The lines that are printed for one employee.
pub record Line : Type 0 where
  pub number : ℕ
  pub name : List ℕ
  pub address : List ℕ
  pub hours : ℕ

-- The texts are printed up to their NUL: without one, the array is left.
unfoldable pub print_texts :
    ℕ → ℕ → Option (List ℕ × List ℕ) → Option (List ℕ × List ℕ) → Option Line
print_texts i hours (some (name, _)) (some (address, _)) =
    some (record { number = i; name = name; address = address; hours = hours })
print_texts i hours _ _ = none

unfoldable pub print_employee : ℕ → Employee → Option Line
unfolding print_texts
print_employee i x = print_texts i x.hours (c_string x.name) (c_string x.address)

unfoldable pub print_line : Option Line → Option (List Line) → Option (List Line)
print_line (some l) (some ls) = some (l ∷ ls)
print_line _ _ = none

-- The loop from `i` on, for the rounds that are left.
unfoldable pub list_from : ℕ → ℕ → List Employee → Option (List Line)
unfolding print_line print_employee
list_from i zero es = some []
list_from i (suc n) [] = none
list_from i (suc n) (x ∷ es) = print_line (print_employee i x) (list_from (i + 1) n es)

-- A NULL array is not accessed if the count is 0.
unfoldable pub elements : Array → List Employee
elements none = []
elements (some es) = es

unfoldable pub list_employees : Header → Array → Option (List Line)
unfolding list_from elements
list_employees h a = list_from 0 h.count (elements a)
