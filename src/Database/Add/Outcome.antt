-- ===== src/Database/Add/Outcome.antt =====
-- What `add_employee` does, on every branch.
use lowlevel_academy.Prelude.{
  ℕ, zero, suc, ◌+◌, ◌-◌, ◌≡◌, ◌<◌, ◌⊎◌, inl, inr, refl, ap, List, [], ◌∷◌, ◌++◌, Option, none,
  some, arith, length, length-append, true, false, take, set, replicate, Bool-cases, Option-cases,
  ◌==◌, if◌then◌else◌,
}
use lowlevel_academy.Cstring.{
  atoi, signed_value, positive32, negative32, Token, strtok, skip_spaces,
}
use lowlevel_academy.Cstring.Copy.{length-strncpy}
use lowlevel_academy.Cstring.Tokens.{length-strtok}
use lowlevel_academy.Database.{Employee}
use lowlevel_academy.Database.Add.{
  status_success, status_error, Db, Added, failed, blank, resize, new_employee, append_employee,
  add_hours, add_address, add_name, add_employee,
}
use lowlevel_academy.Database.Format.{IsRecord}

-- The database with one more employee.
abbrev pub appended : Db → Employee → Db
appended db x = record {
  header = record db.header { count = db.header.count + 1 };
  employees = db.employees ++ x ∷ [];
}

positive32-lt : (n : ℕ) → positive32 n < 4294967296
unfolding positive32
positive32-lt n = omega arith

negative32-lt : (n : ℕ) → negative32 n < 4294967296
unfolding negative32
negative32-lt n = omega arith

signed_value-lt : (s : List ℕ) → signed_value s < 4294967296
unfolding signed_value
signed_value-lt [] = omega arith
signed_value-lt (c ∷ s) = grind (arith, positive32-lt, negative32-lt)

pub atoi-lt : (s : List ℕ) → atoi s < 4294967296
unfolding atoi
atoi-lt s = signed_value-lt (skip_spaces s)

pub new_employee-IsRecord : (n a h : List ℕ) → IsRecord (new_employee n a h)
unfolding new_employee
new_employee-IsRecord n a h = record {
  name_size = length-strncpy 256 n;
  address_size = length-strncpy 256 a;
  hours_fit = atoi-lt h;
}

-- The last of `suc n` entries is the one behind the `n` old ones.
set-take :
    (es : List Employee) (n : ℕ) (ys : List Employee) (x : Employee)
    → length es ≡ n
    → set (take (suc n) (es ++ blank ∷ ys)) n x ≡ es ++ x ∷ []
set-take [] zero ys x h = refl
set-take [] (suc n) ys x h = absurd (omega arith)
set-take (y ∷ es) zero ys x h = absurd (omega arith)
set-take (y ∷ es) (suc n) ys x h = ap (λ t. y ∷ t) (set-take es n ys x (omega arith))

pub set-resize :
    (es : List Employee) (n : ℕ) (x : Employee)
    → length es + 1 ≡ n
    → set (resize n es) (n - 1) x ≡ es ++ x ∷ []
unfolding resize
set-resize es zero x h = absurd (omega arith)
set-resize es (suc n) x h =
    let e : suc n - 1 ≡ n = omega arith in rw e (set-take es n (replicate n blank) x (omega arith))

-- With room in the count, the new entry goes behind the old ones.
pub append_employee_lem :
    (db : Db) (text n a h : List ℕ)
    → db.header.count ≡ length db.employees
    → db.header.count < 65535
    → append_employee true db text n a h
      ≡ some
          (record { status = status_success; db = appended db (new_employee n a h); text = text })
unfolding append_employee
append_employee_lem db text n a h counted room =
    ground (arith, set-resize db.employees (db.header.count + 1) (new_employee n a h) (omega arith))

-- `none` would be a fault. The text keeps its length; a failure leaves the database alone, and a
-- success appends one well-formed record and counts it.
abbrev pub Outcome : Db → List ℕ → Option Added → Type 0
Outcome db s none = ⊥
Outcome db s (some r) =
    (length r.text ≡ length s)
    × (((r.status ≡ status_error) × (r.db ≡ db))
        ⊎ ((x : Employee) × (r.status ≡ status_success) × IsRecord x × (r.db ≡ appended db x)))

-- At the largest count the counter wraps to 0, and the new entry is written at index -1.
pub append_employee_wraps :
    (db : Db) (text n a h : List ℕ)
    → db.header.count ≡ 65535
    → append_employee true db text n a h ≡ none
unfolding append_employee
append_employee_wraps db text n a h full = ground arith

pub append_employee_null :
    (db : Db) (text n a h : List ℕ) → append_employee false db text n a h ≡ none
unfolding append_employee
append_employee_null db text n a h = refl

failed-Outcome :
    (db : Db) (s text : List ℕ) → length text ≡ length s → Outcome db s (some (failed db text))
unfolding failed
failed-Outcome db s text h = (h, inl (refl, refl))

append_employee-Outcome :
    (db : Db) (s text n a h : List ℕ)
    → db.header.count ≡ length db.employees
    → db.header.count < 65535
    → length text ≡ length s
    → Outcome db s (append_employee true db text n a h)
append_employee-Outcome db s text n a h counted room e =
    rw (append_employee_lem db text n a h counted room)
      (e, inr (new_employee n a h, refl, new_employee-IsRecord n a h, refl))

-- Facts of one `strtok` call are passed on: what is kept and what is left keep their joint length.
module _ (db : Db) (s : List ℕ) (counted : db.header.count ≡ length db.employees)
    (room : db.header.count < 65535) where
  add_hours-Outcome :
      (kept n a : List ℕ) (t : Token)
      → length kept + (length t.kept + length t.rest) ≡ length s
      → Outcome db s (add_hours true db kept n a t)
  unfolding add_hours
  add_hours-Outcome kept n a t e = elim (Option-cases t.token) [
    | inl p ↦ rw p (failed-Outcome db s _ (whole))
    | inr (h, p) ↦ rw p (by_value h)
  ]
    where
      whole : length (kept ++ (t.kept ++ t.rest)) ≡ length s
      whole = omega (arith, length-append kept (t.kept ++ t.rest), length-append t.kept t.rest)

      by_value :
          (h : List ℕ)
          → Outcome db s (
              if atoi h == 0
              then some (failed db (kept ++ (t.kept ++ t.rest)))
              else append_employee true db (kept ++ (t.kept ++ t.rest)) n a h)
      by_value h = elim (Bool-cases (atoi h == 0)) [
        | inl p ↦ rw p (failed-Outcome db s _ whole)
        | inr p ↦ rw p (append_employee-Outcome db s _ n a h counted room whole)
      ]

  add_address-Outcome :
      (kept n : List ℕ) (t : Token)
      → length kept + (length t.kept + length t.rest) ≡ length s
      → Outcome db s (add_address true db kept n t)
  unfolding add_address
  add_address-Outcome kept n t e = elim (Option-cases t.token) [
    | inl p ↦ rw p (failed-Outcome db s _ whole)
    | inr (a, p) ↦ rw p (add_hours-Outcome (kept ++ t.kept) n a (strtok t.rest) passed)
  ]
    where
      whole : length (kept ++ (t.kept ++ t.rest)) ≡ length s
      whole = omega (arith, length-append kept (t.kept ++ t.rest), length-append t.kept t.rest)

      passed :
          length (kept ++ t.kept) + (length (strtok t.rest).kept + length (strtok t.rest).rest)
          ≡ length s
      passed = omega (arith, length-append kept t.kept, length-strtok t.rest)

  add_name-Outcome :
      (t : Token) → length t.kept + length t.rest ≡ length s → Outcome db s (add_name true db t)
  unfolding add_name
  add_name-Outcome t e = elim (Option-cases t.token) [
    | inl p ↦ rw p (failed-Outcome db s _ (omega (arith, length-append t.kept t.rest)))
    | inr (n, p) ↦
        rw p (add_address-Outcome t.kept n (strtok t.rest) (omega (arith, length-strtok t.rest)))
  ]

-- With the count in step with the array and below 65535, and memory to be had, `add_employee` never
-- faults on any text: it keeps the text's length, and either fails and leaves the database as it
-- was, or succeeds and appends one well-formed record, with the count one higher.
pub add_employee-Outcome :
    (db : Db) (s : List ℕ)
    → db.header.count ≡ length db.employees
    → db.header.count < 65535
    → Outcome db s (add_employee true db s)
unfolding add_employee
add_employee-Outcome db s counted room =
    add_name-Outcome db s counted room (strtok s) (length-strtok s)
