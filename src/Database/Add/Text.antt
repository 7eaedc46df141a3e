-- ===== src/Database/Add/Text.antt =====
-- `add_employee` on a text of three parts.
use lowlevel_academy.Prelude.{
  ◌⊎◌, ℕ, ◌≡◌, ◌≢◌, ◌⊎◌, inl, inr, ◌<◌, ◌∙◌, List, [], ◌∷◌, ◌++◌, none, some, arith, length,
  append_assoc, append-nil, length-append, Bool, true, false,
}
use lowlevel_academy.Cstring.{atoi, strtok, comma}
use lowlevel_academy.Cstring.Tokens.{strtok-word, strtok_last, NoComma}
use lowlevel_academy.Database.{Employee}
use lowlevel_academy.Database.Add.{status_success, Db, new_employee, append_employee, add_employee}
use lowlevel_academy.Database.Add.Outcome.{
  appended, append_employee_lem, append_employee_wraps, append_employee_null,
}
use lowlevel_academy.Database.Format.{IsRecord, AllRecords, IsValid}

-- The three parts, none of them empty, as the text of a request joins them.
pub record Parts : Type 0 where
  pub name : List ℕ
  pub address : List ℕ
  pub hours : List ℕ

abbrev pub IsPart : List ℕ → Type 0
IsPart [] = ⊥
IsPart (c ∷ w) = NoComma (c ∷ w)

pub record IsParts (p : Parts) : Type 0 where
  pub name_part : IsPart p.name
  pub address_part : IsPart p.address
  pub hours_part : IsPart p.hours
  pub hours_given : atoi p.hours ≢ 0

abbrev pub joined : Parts → List ℕ
joined p = p.name ++ comma ∷ (p.address ++ comma ∷ p.hours)

-- What `strtok` leaves: a NUL over each comma.
abbrev pub cut : Parts → List ℕ
cut p = p.name ++ 0 ∷ (p.address ++ 0 ∷ p.hours)

pub strtok-part :
    (w r : List ℕ)
    → IsPart w
    → strtok (w ++ comma ∷ r) ≡ record { token = some w; kept = w ++ 0 ∷ []; rest = r }
strtok-part [] r v = absurd v
strtok-part (c ∷ w) r v = strtok-word c w r v

pub strtok-part_last :
    (w : List ℕ) → IsPart w → strtok w ≡ record { token = some w; kept = w; rest = [] }
strtok-part_last [] v = absurd v
strtok-part_last (c ∷ w) v = strtok_last c w v

cut_lem : (p : Parts) → ((p.name ++ 0 ∷ []) ++ (p.address ++ 0 ∷ [])) ++ (p.hours ++ []) ≡ cut p
cut_lem p = simp (append_assoc, append-nil)

-- The three calls of `strtok` find the parts, whatever memory there is.
add_employee-joined :
    (b : Bool) (db : Db) (p : Parts)
    → IsParts p
    → add_employee b db (joined p) ≡ append_employee b db (cut p) p.name p.address p.hours
unfolding add_employee
add_employee-joined b db p v =
    rw
      (
        strtok-part p.name _ v.name_part,
        strtok-part p.address _ v.address_part,
        strtok-part_last p.hours v.hours_part,
        cut_lem p,
      )
      (ground arith)

-- A text `name,address,hours` of parts with no comma in them, whose hours are not 0 to `atoi`, is
-- added: the employee goes behind the others with these texts and this number, and the text is left
-- with a NUL for each comma.
pub add_employee_text :
    (db : Db) (p : Parts)
    → IsParts p
    → db.header.count ≡ length db.employees
    → db.header.count < 65535
    → add_employee true db (joined p)
      ≡ some (record {
        status = status_success;
        db = appended db (new_employee p.name p.address p.hours);
        text = cut p;
      })
add_employee_text db p v counted room =
    add_employee-joined true db p v
    ∙ append_employee_lem db (cut p) p.name p.address p.hours counted room

add_employee_wraps :
    (db : Db) (p : Parts)
    → IsParts p
    → db.header.count ≡ 65535
    → add_employee true db (joined p) ≡ none
add_employee_wraps db p v full =
    add_employee-joined true db p v ∙ append_employee_wraps db (cut p) p.name p.address p.hours full

add_employee_null : (db : Db) (p : Parts) → IsParts p → add_employee false db (joined p) ≡ none
add_employee_null db p v =
    add_employee-joined false db p v ∙ append_employee_null db (cut p) p.name p.address p.hours

-- The same text faults in two cases: when `realloc` fails, since the null pointer is written through
-- where the code means to return STATUS_ERROR, and at 65535 employees, since the 16-bit count wraps
-- to 0 and the entry at index -1 is written.
pub add_employee_faults :
    (reallocated : Bool) (db : Db) (p : Parts)
    → IsParts p
    → (reallocated ≡ false) ⊎ (db.header.count ≡ 65535)
    → add_employee reallocated db (joined p) ≡ none
add_employee_faults true db p v (inl q) = cc
add_employee_faults true db p v (inr q) = add_employee_wraps db p v q
add_employee_faults false db p v _ = add_employee_null db p v

pub AllRecords-append :
    (es : List Employee) (x : Employee) → AllRecords es → IsRecord x → AllRecords (es ++ x ∷ [])
AllRecords-append [] x v w = (w, tt)
AllRecords-append (y ∷ es) x v w = (v.0, AllRecords-append es x v.1 w)

-- One more record leaves a valid database valid, below the largest count.
pub appended-IsValid :
    (db : Db) (x : Employee)
    → IsValid db
    → db.header.count < 65535
    → IsRecord x
    → IsValid (appended db x)
appended-IsValid db x v room w = record {
  magic = v.magic;
  version = v.version;
  counted = omega (arith, length-append db.employees (x ∷ []), v.counted);
  count_fits = omega arith;
  records = AllRecords-append db.employees x v.records w;
}
