-- ===== src/Exercises/StaticVars.antt =====
-- 01-lowlevel-academy-c/07_pointers_mem_allocation/static_vars.c. A static variable is passed in and
-- out.
use lowlevel_academy.Prelude.{
  ℕ, zero, suc, ◌+◌, Bool, true, false, List, [], ◌∷◌, Option, none, some, length, set, ltb,
  if◌then◌else◌,
}
pub mod Laws

abbrev pub int_max : ℕ
int_max = 2147483647

pub record Employee : Type 0 where
  pub id : ℕ
  pub income : ℕ
  pub staff : Bool

-- What a call leaves in `numEmployees`, which it also returns, and in `*e`.
pub record Initialized : Type 0 where
  pub num_employees : ℕ
  pub employee : Employee

-- `none`: the increment overflows.
unfoldable pub initialize_employee : (num_employees : ℕ) → Option Initialized
initialize_employee n =
    if ltb n int_max
    then some (record {
      num_employees = n + 1;
      employee = record { id = n + 1; income = 100; staff = false };
    })
    else none

-- What the loop of `main` leaves: the static variable, the array, and the IDs that were printed.
pub record Filled : Type 0 where
  pub num_employees : ℕ
  pub employees : List Employee
  pub ids : List ℕ

abbrev pub print_id : ℕ → Option Filled → Option Filled
print_id id none = none
print_id id (some f) = some (record f { ids = id ∷ f.ids })

-- A round: `employees[i]` must lie in the array.
unfoldable pub put_employee :
    (i : ℕ)
    → (employees : List Employee) → Option Initialized
    → (ℕ → List Employee → Option Filled)
    → Option Filled
put_employee i es none next = none
put_employee i es (some r) next =
    if ltb i (length es)
    then print_id r.num_employees (next r.num_employees (set es i r.employee))
    else none

-- The loop from `i` on, for the rounds that are left.
unfoldable pub fill : (num_employees i rounds : ℕ) → (employees : List Employee) → Option Filled
unfolding initialize_employee put_employee
fill num i zero es = some (record { num_employees = num; employees = es; ids = [] })
fill num i (suc n) es =
    put_employee i es (initialize_employee num) (λ num' es'. fill num' (i + 1) n es')

pub data Line : Type 0 where
  allocator_failed : Line
  new_employees : (ids : List ℕ) → Line

-- `freed`: whether the array was given back.
pub record Ended : Type 0 where
  pub code : Bool
  pub printed : Line
  pub freed : Bool

unfoldable pub finish : Option Filled → Option Ended
finish none = none
finish (some f) = some (record { code = true; printed = new_employees f.ids; freed = true })

-- What `main` does for `n` employees (it has n = 4), where `malloc` returns NULL or an array with
-- anything in it. The code is true for 0, and false for -1.
unfoldable pub main : (n : ℕ) → (employees : Option (List Employee)) → Option Ended
unfolding fill finish
main n none = some (record { code = false; printed = allocator_failed; freed = false })
main n (some es) = finish (fill 0 0 n es)
