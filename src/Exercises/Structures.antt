-- ===== src/Exercises/Structures.antt =====
-- structures.c and struct_modifiers.c of 01-lowlevel-academy-c/06_structs_unions: an array of
-- employees is filled in and printed, and in the second file the struct is packed. A float is its
-- 32 bits; those of 0 are 0.
use lowlevel_academy.Prelude.{
  ℕ, zero, suc, ◌+◌, Bool, true, false, List, [], ◌∷◌, ◌++◌, Option, none, some,
}
use lowlevel_academy.Host.{Endian, store32}
use lowlevel_academy.Memory.{write_bytes}
use lowlevel_academy.Cstring.{c_string}
pub mod Laws

pub record Employee : Type 0 where
  pub id : ℕ
  pub first_name : List ℕ
  pub last_name : List ℕ
  pub income : ℕ
  pub is_manager : Bool

abbrev pub steve : List ℕ
steve = b'S' ∷ b't' ∷ b'e' ∷ b'v' ∷ b'e' ∷ []

-- What a round makes of `employees[i]`.
unfoldable pub filled : (i : ℕ) → Employee → Employee
filled i x = record x {
  income = 0;
  is_manager = false;
  id = i;
  first_name = write_bytes 0 (steve ++ 0 ∷ []) x.first_name;
}

-- A line starts with the id in structures.c, and with the first name in struct_modifiers.c.
pub data Key : Type 0 where
  number : ℕ → Key
  text : List ℕ → Key

pub record Line : Type 0 where
  pub key : Key
  pub is_manager : Bool
  pub income : ℕ

unfoldable pub line : Key → Employee → Line
line k x = record { key = k; is_manager = x.is_manager; income = x.income }

unfoldable pub id_line : Employee → Option Line
unfolding line
id_line x = some (line (number x.id) x)

unfoldable pub with_text : Employee → Option (List ℕ × List ℕ) → Option Line
unfolding line
with_text x none = none
with_text x (some (name, _)) = some (line (text name) x)

-- `none`: the name has no NUL.
unfoldable pub name_line : Employee → Option Line
unfolding with_text
name_line x = with_text x (c_string x.first_name)

unfoldable pub cons_line : Option Line → Option (List Line) → Option (List Line)
cons_line (some l) (some ls) = some (l ∷ ls)
cons_line _ _ = none

-- The loop from `i` on, for the rounds that are left, on the entries from there on: what it prints.
unfoldable pub fill :
    (show : Employee → Option Line) → (i rounds : ℕ) → List Employee → Option (List Line)
unfolding cons_line filled
fill show i zero es = some []
fill show i (suc n) [] = none
fill show i (suc n) (x ∷ es) = cons_line (show (filled i x)) (fill show (i + 1) n es)

abbrev pub max_employees : ℕ
max_employees = 1000

-- `main` of structures.c and that of struct_modifiers.c, on an array with anything in it.
unfoldable pub id_lines : (employees : List Employee) → Option (List Line)
unfolding fill id_line
id_lines es = fill id_line 0 max_employees es

unfoldable pub name_lines : (employees : List Employee) → Option (List Line)
unfolding fill name_line
name_lines es = fill name_line 0 max_employees es

abbrev pub bool_byte : Bool → ℕ
bool_byte true = 1
bool_byte false = 0

-- The packed struct in memory.
unfoldable pub image : Endian → Employee → List ℕ
image e x =
    store32 e x.id
    ++ x.first_name
    ++ x.last_name
    ++ store32 e x.income
    ++ bool_byte x.is_manager ∷ []
