-- ===== src/Database/Add.antt =====
-- `add_employee` of parse.c.
use lowlevel_academy.Prelude.{
  ℕ, ◌+◌, ◌-◌, ◌%◌, Bool, true, false, List, ◌++◌, Option, none, some, set, take, ◌==◌,
  if◌then◌else◌, replicate,
}
use lowlevel_academy.Cstring.{strncpy, atoi, Token, strtok}
use lowlevel_academy.Database.{Header, Employee, text_size}
pub mod Outcome
pub mod Parts
pub mod Text

pub data Status : Type 0 where
  status_success status_error : Status

-- What `header` and `*employees_ptr` point to.
pub record Db : Type 0 where
  pub header : Header
  pub employees : List Employee

-- The status, the database, and the characters of `addString`, which `strtok` has cut.
pub record Added : Type 0 where
  pub status : Status
  pub db : Db
  pub text : List ℕ

unfoldable pub failed : Db → List ℕ → Added
failed db text = record { status = status_error; db = db; text = text }

-- `realloc` to `n` entries keeps what fits; what it adds has no content yet, shown as zeros here.
unfoldable pub blank : Employee
blank = record { name = replicate text_size 0; address = replicate text_size 0; hours = 0 }

unfoldable pub resize : ℕ → List Employee → List Employee
resize n es = take n (es ++ replicate n blank)

-- `header->count++` on an `unsigned short`.
unfoldable pub bump_count : Header → Header
bump_count h = record h { count = (h.count + 1) % 65536 }

unfoldable pub new_employee : List ℕ → List ℕ → List ℕ → Employee
new_employee name address hours = record {
  name = strncpy text_size name;
  address = strncpy text_size address;
  hours = atoi hours;
}

-- The writes to `employees[header->count - 1]`. `none` is a fault: the index is -1, or `realloc`
-- returned NULL (`reallocated` is false), which the code does not see, since it tests
-- `employees_ptr` and not `*employees_ptr`.
unfoldable pub put_last : (reallocated : Bool) → Header → List Employee → Employee → Option Db
put_last false h es x = none
put_last true h es x =
    if h.count == 0
    then none
    else some (record { header = h; employees = set (resize h.count es) (h.count - 1) x })

unfoldable pub finish_add : List ℕ → Option Db → Option Added
finish_add text none = none
finish_add text (some db) = some (record { status = status_success; db = db; text = text })

unfoldable pub append_employee :
    (reallocated : Bool) → Db → List ℕ → List ℕ → List ℕ → List ℕ → Option Added
unfolding put_last finish_add bump_count new_employee
append_employee reallocated db text name address hours =
    finish_add text
      (put_last reallocated (bump_count db.header) db.employees (new_employee name address hours))

-- After each call of `strtok`: `kept` is the part of the string that it has passed.
unfoldable pub add_hours :
    (reallocated : Bool) → Db → List ℕ → List ℕ → List ℕ → Token → Option Added
unfolding append_employee failed
add_hours reallocated db kept name address t = elim t.token [
  | none ↦ some (failed db (kept ++ (t.kept ++ t.rest)))
  | some hours ↦
      if atoi hours == 0
      then some (failed db (kept ++ (t.kept ++ t.rest)))
      else append_employee reallocated db (kept ++ (t.kept ++ t.rest)) name address hours
]

unfoldable pub add_address : (reallocated : Bool) → Db → List ℕ → List ℕ → Token → Option Added
unfolding add_hours failed
add_address reallocated db kept name t = elim t.token [
  | none ↦ some (failed db (kept ++ (t.kept ++ t.rest)))
  | some address ↦ add_hours reallocated db (kept ++ t.kept) name address (strtok t.rest)
]

unfoldable pub add_name : (reallocated : Bool) → Db → Token → Option Added
unfolding add_address failed
add_name reallocated db t = elim t.token [
  | none ↦ some (failed db (t.kept ++ t.rest))
  | some name ↦ add_address reallocated db t.kept name (strtok t.rest)
]

unfoldable pub add_employee : (reallocated : Bool) → Db → List ℕ → Option Added
unfolding add_name
add_employee reallocated db add_string = add_name reallocated db (strtok add_string)
