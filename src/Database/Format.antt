-- ===== src/Database/Format.antt =====
-- The file format that `output_file` writes and `validate_db_header` and `read_employees` read,
-- stated without a host: every number is big-endian.
use lowlevel_academy.Prelude.{
  ℕ, ◌+◌, ◌*◌, ◌≡◌, ◌<◌, refl, List, [], ◌∷◌, ◌++◌, arith, length, length-append,
}
use lowlevel_academy.Host.{big, store16, store32}
use lowlevel_academy.Host.Laws.{length-store32}
use lowlevel_academy.Database.{Employee, header_magic}
use lowlevel_academy.Database.Add.{Db}

unfoldable pub employee_image : Employee → List ℕ
employee_image x = x.name ++ (x.address ++ store32 big x.hours)

unfoldable pub employees_image : List Employee → List ℕ
employees_image [] = []
employees_image (x ∷ es) = employee_image x ++ employees_image es

unfoldable pub header_image : ℕ → List ℕ
header_image n =
    store32 big header_magic ++ (store16 big 1 ++ (store16 big n ++ store32 big (12 + 516 * n)))

unfoldable pub file_image : List Employee → List ℕ
unfolding header_image employees_image
file_image es = header_image (length es) ++ employees_image es

-- The arrays have their size, and the number fits an `unsigned int`.
pub record IsRecord (x : Employee) : Type 0 where
  pub name_size : length x.name ≡ 256
  pub address_size : length x.address ≡ 256
  pub hours_fit : x.hours < 4294967296

abbrev pub AllRecords : List Employee → Type 0
AllRecords [] = Unit {0}
AllRecords (x ∷ es) = IsRecord x × AllRecords es

-- A database that a header of this program describes.
pub record IsValid (db : Db) : Type 0 where
  pub magic : db.header.magic ≡ header_magic
  pub version : db.header.version ≡ 1
  pub counted : db.header.count ≡ length db.employees
  pub count_fits : db.header.count < 65536
  pub records : AllRecords db.employees

pub length-employee_image : (x : Employee) → IsRecord x → length (employee_image x) ≡ 516
unfolding employee_image
length-employee_image x v = omega (
  arith,
  length-append x.name (x.address ++ store32 big x.hours),
  length-append x.address (store32 big x.hours),
  length-store32 big x.hours,
)

pub length-employees_image :
    (es : List Employee) → AllRecords es → length (employees_image es) ≡ 516 * length es
unfolding employees_image
length-employees_image [] v = refl
length-employees_image (x ∷ es) v = omega (
  arith,
  length-append (employee_image x) (employees_image es),
  length-employee_image x v.0,
  length-employees_image es v.1,
)

pub length-header_image : (n : ℕ) → length (header_image n) ≡ 12
unfolding header_image store32 store16
length-header_image n = refl

pub length-file_image :
    (es : List Employee) → AllRecords es → length (file_image es) ≡ 12 + 516 * length es
unfolding file_image
length-file_image es v = omega (
  arith,
  length-append (header_image (length es)) (employees_image es),
  length-header_image (length es),
  length-employees_image es v,
)
