-- ===== src/Exercises/DynamicMalloc.antt =====
-- dynamic_malloc.c and pointers.c of 01-lowlevel-academy-c/07_pointers_mem_allocation: an employee is
-- initialised through a pointer, into an array on the heap or into a variable.
use lowlevel_academy.Prelude.{ℕ, Bool, true, false, List, [], ◌∷◌, Option, none, some}
use lowlevel_academy.Exercises.StaticVars.{Employee}

-- `*e` behind the call; it sets each field.
unfoldable pub initialize_employee : Employee
initialize_employee = record { id = 0; income = 100; staff = false }

pub data Line : Type 0 where
  allocator_failed : Line
  value : ℕ → Line
  income : ℕ → Line

-- The code is true for 0, and false for -1. `freed`: whether the array was given back.
pub record Ended : Type 0 where
  pub code : Bool
  pub printed : List Line
  pub freed : Bool

-- What `main` of dynamic_malloc.c does with what `malloc` returned; `none`: the array is empty.
unfoldable pub allocating : (employees : Option (List Employee)) → Option Ended
unfolding initialize_employee
allocating none = some (record { code = false; printed = allocator_failed ∷ []; freed = false })
allocating (some []) = none
allocating (some (x ∷ es)) =
    some (record { code = true; printed = income initialize_employee.income ∷ []; freed = true })

-- The lines of `main` of pointers.c, less the two addresses.
unfoldable pub pointing : (x : ℕ) → List Line
unfolding initialize_employee
pointing x = value x ∷ income initialize_employee.income ∷ []
