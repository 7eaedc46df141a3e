-- ===== src/Database/Printing.antt =====
-- `list_employees` of src/server/parse.c, which the server does not call.
use lowlevel_academy.Prelude.{ℕ, zero, suc, ◌+◌, List, [], ◌∷◌, Option, none, some}
use lowlevel_academy.Cstring.{c_string}
use lowlevel_academy.Database.{Header, Employee}
pub mod Laws

-- The four lines of an employee.
pub record Block : Type 0 where
  pub number : ℕ
  pub name : List ℕ
  pub address : List ℕ
  pub hours : ℕ

-- `none`: a text has no NUL.
unfoldable pub print_texts :
    (i hours : ℕ) → (name address : Option (List ℕ × List ℕ)) → Option Block
print_texts i hours (some (name, _)) (some (address, _)) =
    some (record { number = i; name = name; address = address; hours = hours })
print_texts i hours _ _ = none

unfoldable pub print_block : ℕ → Employee → Option Block
unfolding print_texts
print_block i x = print_texts i x.hours (c_string x.name) (c_string x.address)

unfoldable pub print_before : Option Block → Option (List Block) → Option (List Block)
print_before (some b) (some bs) = some (b ∷ bs)
print_before _ _ = none

-- The loop from `i` on, for the rounds that are left; `none` also if the array ends before.
unfoldable pub blocks_from : (i rounds : ℕ) → List Employee → Option (List Block)
unfolding print_block print_before
blocks_from i zero es = some []
blocks_from i (suc n) [] = none
blocks_from i (suc n) (x ∷ es) = print_before (print_block i x) (blocks_from (i + 1) n es)

unfoldable pub list_employees : Header → List Employee → Option (List Block)
unfolding blocks_from
list_employees h es = blocks_from 0 h.count es
