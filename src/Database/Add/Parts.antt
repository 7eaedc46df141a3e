-- ===== src/Database/Add/Parts.antt =====
-- `add_employee` against the three parts of its text.
use lowlevel_academy.Prelude.{
  ℕ, ◌+◌, ◌≡◌, ◌≢◌, ◌<◌, inl, inr, refl, List, ◌++◌, Option, none, some, arith, length,
  length-append, Bool-cases, Option-cases, ◌==◌,
}
use lowlevel_academy.Cstring.{strncpy, atoi, Token, strtok}
use lowlevel_academy.Cstring.Tokens.{length-strtok}
use lowlevel_academy.Database.{Employee}
use lowlevel_academy.Database.Add.{
  true, status_success, status_error, Db, Added, failed, new_employee, add_hours, add_address,
  add_name, add_employee,
}
use lowlevel_academy.Database.Add.Outcome.{appended, append_employee_lem}

pub record Three : Type 0 where
  pub name : List ℕ
  pub address : List ℕ
  pub hours : List ℕ

-- The first three words of a text that `strtok` finds between commas, if there are three.
abbrev hours_of : (name address : List ℕ) → Option (List ℕ) → Option Three
hours_of n a none = none
hours_of n a (some h) = some (record { name = n; address = a; hours = h })

abbrev address_of : (name : List ℕ) → (rest : List ℕ) → Option (List ℕ) → Option Three
address_of n rest none = none
address_of n rest (some a) = hours_of n a (strtok rest).token

abbrev name_of : (rest : List ℕ) → Option (List ℕ) → Option Three
name_of rest none = none
name_of rest (some n) = address_of n (strtok rest).rest (strtok rest).token

abbrev pub parts_of : (text : List ℕ) → Option Three
parts_of s = name_of (strtok s).rest (strtok s).token

-- What is stored of three parts.
abbrev pub stored_parts : Three → Employee
stored_parts p = record {
  name = strncpy 256 p.name;
  address = strncpy 256 p.address;
  hours = atoi p.hours;
}

pub record IsRefused (db : Db) (s : List ℕ) (r : Added) : Type 0 where
  pub status : r.status ≡ status_error
  pub same : r.db ≡ db
  pub kept : length r.text ≡ length s

pub record IsAdded (db : Db) (s : List ℕ) (p : Three) (r : Added) : Type 0 where
  pub status : r.status ≡ status_success
  pub grown : r.db ≡ appended db (stored_parts p)
  pub kept : length r.text ≡ length s

-- Without three parts, or with hours that are 0 for `atoi`, the employee is refused.
abbrev pub Answers : Db → (text : List ℕ) → Option Three → Added → Type 0
Answers db s none r = IsRefused db s r
Answers db s (some p) r =
    (atoi p.hours ≡ 0 → IsRefused db s r) × (atoi p.hours ≢ 0 → IsAdded db s p r)

abbrev Answered : Db → List ℕ → Option Three → Option Added → Type 0
Answered db s ps o = (r : Added) × (o ≡ some r) × Answers db s ps r

refused : (db : Db) (s text : List ℕ) → length text ≡ length s → IsRefused db s (failed db text)
unfolding failed
refused db s text h = record { status = refl; same = refl; kept = h }

module _ (db : Db) (s : List ℕ) (counted : db.header.count ≡ length db.employees)
    (room : db.header.count < 65535) where
  add_hours-Answered :
      (kept n a : List ℕ) (t : Token)
      → length kept + (length t.kept + length t.rest) ≡ length s
      → Answered db s (hours_of n a t.token) (add_hours true db kept n a t)
  unfolding add_hours new_employee
  add_hours-Answered kept n a t e =
      let whole : length (kept ++ (t.kept ++ t.rest)) ≡ length s =
        omega (arith, e, length-append kept (t.kept ++ t.rest), length-append t.kept t.rest) in
      elim (Option-cases t.token) [
        | inl p ↦ rw p (_, refl, refused db s _ whole)
        | inr (h, p) ↦ rw p (elim (Bool-cases (atoi h == 0)) [
          | inl z ↦
              let zero_hours : atoi h ≡ 0 = ground arith in
              rw z (_, refl, (λ q. refused db s _ whole, λ q. absurd (q zero_hours)))
          | inr z ↦
              let some_hours : atoi h ≢ 0 = λ q. ground (arith, q, z) in
              let text = kept ++ (t.kept ++ t.rest) in
              rw (z, append_employee_lem db text n a h counted room)
                (
                  _,
                  refl,
                  (
                    λ q. absurd (some_hours q),
                    λ q. record { status = refl; grown = refl; kept = whole },
                  ),
                )
        ])
      ]

  add_address-Answered :
      (kept n : List ℕ) (t : Token)
      → length kept + (length t.kept + length t.rest) ≡ length s
      → Answered db s (address_of n t.rest t.token) (add_address true db kept n t)
  unfolding add_address
  add_address-Answered kept n t e =
      let whole : length (kept ++ (t.kept ++ t.rest)) ≡ length s =
        omega (arith, e, length-append kept (t.kept ++ t.rest), length-append t.kept t.rest) in
      elim (Option-cases t.token) [
        | inl p ↦ rw p (_, refl, refused db s _ whole)
        | inr (a, p) ↦ rw p (
            add_hours-Answered (kept ++ t.kept) n a (strtok t.rest)
              (omega (arith, e, length-append kept t.kept, length-strtok t.rest)))
      ]

  add_name-Answered :
      (t : Token)
      → length t.kept + length t.rest ≡ length s
      → Answered db s (name_of t.rest t.token) (add_name true db t)
  unfolding add_name
  add_name-Answered t e = elim (Option-cases t.token) [
    | inl p ↦ rw p (_, refl, refused db s _ (omega (arith, e, length-append t.kept t.rest)))
    | inr (n, p) ↦
        rw p
          (add_address-Answered t.kept n (strtok t.rest) (omega (arith, e, length-strtok t.rest)))
  ]

-- With the count in step with the array and below 65535, and memory to be had, `add_employee` of any
-- text returns, and what it returns is decided by the first three words that `strtok` finds between
-- commas. If there are three, and `atoi` of the third is not 0, it succeeds: one employee is appended,
-- with the first two words as `strncpy` stores them in 256 bytes and that number, and the count is one
-- higher. In all other cases it fails and leaves the database as it was. The text keeps its length.
pub add_employee-Answers :
    (db : Db) (s : List ℕ)
    → db.header.count ≡ length db.employees
    → db.header.count < 65535
    → (r : Added) × (add_employee true db s ≡ some r) × Answers db s (parts_of s) r
unfolding add_employee
add_employee-Answers db s counted room =
    add_name-Answered db s counted room (strtok s) (length-strtok s)
