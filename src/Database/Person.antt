-- ===== src/Database/Person.antt =====
-- Employees as a user knows them, and their records.
use lowlevel_academy.Prelude.{
  append_assoc, ℕ, suc, ◌-◌, ◌≡◌, ◌<◌, ◌∙◌, ap, List, [], ◌∷◌, ◌++◌, map, some, arith, length,
  replicate,
}
use lowlevel_academy.Cstring.{c_string, strncpy}
use lowlevel_academy.Cstring.Copy.{NoNul, length-strncpy, strncpy_of_le, c_string-append}
use lowlevel_academy.Database.{Employee}
use lowlevel_academy.Database.Format.{AllRecords}

-- What a user knows of an employee.
pub record Person : Type 0 where
  pub name : List ℕ
  pub address : List ℕ
  pub hours : ℕ

-- The texts leave room for a NUL, and the number fits.
pub record IsPerson (x : Person) : Type 0 where
  pub name_clean : NoNul x.name
  pub name_short : length x.name < 256
  pub address_clean : NoNul x.address
  pub address_short : length x.address < 256
  pub hours_fit : x.hours < 4294967296

abbrev pub ArePersons : List Person → Type 0
ArePersons [] = Unit {0}
ArePersons (x ∷ xs) = IsPerson x × ArePersons xs

abbrev pub recorded : Person → Employee
recorded x = record { name = strncpy 256 x.name; address = strncpy 256 x.address; hours = x.hours }

padded :
    (n : ℕ) (s : List ℕ)
    → NoNul s
    → length s < n
    → strncpy n s ≡ s ++ 0 ∷ replicate (n - length s - 1) 0
padded n s v h =
    strncpy_of_le n s v (omega arith)
    ∙ ap (λ k. s ++ replicate k 0) {x = n - length s} {y = suc (n - length s - 1)} (omega arith)

-- A text that was copied with room for a NUL is read back, whatever follows the array.
pub c_string-strncpy_append :
    (n : ℕ) (s r : List ℕ)
    → NoNul s
    → length s < n
    → c_string (strncpy n s ++ r) ≡ some (s, replicate (n - length s - 1) 0 ++ r)
c_string-strncpy_append n s r v h =
    ap (λ t. c_string (t ++ r)) (padded n s v h)
    ∙ ap c_string (append_assoc s (0 ∷ replicate (n - length s - 1) 0) r)
    ∙ c_string-append s (replicate (n - length s - 1) 0 ++ r) v

pub c_string-strncpy :
    (n : ℕ) (s : List ℕ)
    → NoNul s
    → length s < n
    → c_string (strncpy n s) ≡ some (s, replicate (n - length s - 1) 0)
c_string-strncpy n s v h =
    ap c_string (padded n s v h) ∙ c_string-append s (replicate (n - length s - 1) 0) v

pub recorded-AllRecords : (xs : List Person) → ArePersons xs → AllRecords (map recorded xs)
recorded-AllRecords [] v = tt
recorded-AllRecords (x ∷ xs) v = (
  record {
    name_size = length-strncpy 256 x.name;
    address_size = length-strncpy 256 x.address;
    hours_fit = v.0.hours_fit;
  },
  recorded-AllRecords xs v.1,
)
