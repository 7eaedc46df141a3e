-- ===== src/Exercises/StaticVars/Laws.antt =====
-- The IDs that the static variable gives out.
use lowlevel_academy.Prelude.{
  set-behind, sym, ◌∙◌, ℕ, zero, suc, ◌+◌, ◌≡◌, ◌≤◌, ◌<◌, List, [], ◌∷◌, ◌++◌, none, some, length,
  ltb, lt→ltb, map, true, false, refl, arith, append_assoc, length-append,
}
use lowlevel_academy.Exercises.StaticVars.{
  int_max, Employee, initialize_employee, fill, new_employees, allocator_failed, main, finish,
}

-- The `n` numbers behind `num`.
abbrev pub next_ids : (num n : ℕ) → List ℕ
next_ids num zero = []
next_ids num (suc n) = (num + 1) ∷ next_ids (num + 1) n

abbrev pub numbered : ℕ → Employee
numbered id = record { id = id; income = 100; staff = false }

inside :
    (done : List Employee) (x : Employee) (es : List Employee)
    → ltb (length done) (length (done ++ x ∷ es)) ≡ true
inside done x es =
    lt→ltb (length done) (length (done ++ x ∷ es)) (omega (arith, length-append done (x ∷ es)))

initialize_employee_lem :
    (num : ℕ)
    → num < int_max
    → initialize_employee num
      ≡ some (record { num_employees = num + 1; employee = numbered (num + 1) })
unfolding initialize_employee
initialize_employee_lem num h = rw (lt→ltb num int_max h) refl

fill_lem :
    (num i m : ℕ) (done es all out : List Employee)
    → i ≡ length done
    → m ≡ num + length es
    → all ≡ done ++ es
    → out ≡ done ++ map numbered (next_ids num (length es))
    → m ≤ int_max
    → fill num i (length es) all
      ≡ some (record { num_employees = m; employees = out; ids = next_ids num (length es) })
unfolding fill
fill_lem num i m done [] all out at counted q q' h =
    let same : m ≡ num = omega (arith, counted) in rw (same, q, q') refl
fill_lem num i m done (x ∷ es) all out at counted q q' h =
    let rest =
      fill_lem (num + 1) (length done + 1) m (done ++ numbered (num + 1) ∷ []) es
        (done ++ numbered (num + 1) ∷ es) out
        (omega (arith, length-append done (numbered (num + 1) ∷ []))) (omega (arith, counted))
        (sym (append_assoc done (numbered (num + 1) ∷ []) es))
        (q'
          ∙ sym (
              append_assoc done (numbered (num + 1) ∷ [])
                (map numbered (next_ids (num + 1) (length es)))))
        h in
    rw
      (
        initialize_employee_lem num (omega (arith, counted, h)),
        at,
        q,
        inside done x es,
        set-behind done es x (numbered (num + 1)),
        rest,
      )
      refl

-- For any number of employees that an int can count, whatever the memory from `malloc` holds: the
-- IDs that `main` prints are 1, 2 and so on, in order, the memory is freed, and it returns 0. Without
-- memory it says so and returns -1.
pub main_lem :
    (es : List Employee)
    → length es ≤ int_max
    → (main (length es) (some es)
        ≡ some (record {
          code = true;
          printed = new_employees (next_ids 0 (length es));
          freed = true;
        }))
      × (main (length es) none
          ≡ some (record { code = false; printed = allocator_failed; freed = false }))
unfolding main finish
main_lem es h = (rw (fill_lem 0 0 (length es) [] es es _ refl (omega arith) refl refl h) refl, refl)
