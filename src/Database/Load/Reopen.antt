-- ===== src/Database/Load/Reopen.antt =====
-- `validate_db_header` and `read_employees` on a file in the program's format.
use lowlevel_academy.Prelude.{
  ℕ, ◌+◌, ◌*◌, ◌≡◌, ◌<◌, refl, List, [], ◌∷◌, ◌++◌, map, some, arith, length, append_assoc,
  length-append, true, take, drop, take-append, drop-append, take-length,
}
use lowlevel_academy.Host.{Endian, big, store16, store32}
use lowlevel_academy.Host.Laws.{ntohs-load16, ntohl-load32}
use lowlevel_academy.Database.{
  Header, Employee, read_data, read_file, load_header, load_employee, header_magic,
}
use lowlevel_academy.Database.Load.{
  header_to_host, check_header, validate_db_header, load_employees, employee_to_host,
  read_employees,
}
use lowlevel_academy.Database.Format.{
  employee_image, employees_image, header_image, file_image, IsRecord, AllRecords,
  length-employee_image, length-employees_image, length-header_image, length-file_image,
}

-- The header that a file of `n` employees has.
abbrev pub header_of : ℕ → Header
header_of n = record { magic = header_magic; version = 1; count = n; filesize = 12 + 516 * n }

header_to_host-image :
    (e : Endian) (n : ℕ)
    → n < 65536
    → header_to_host e (load_header e (header_image n)) ≡ header_of n
unfolding header_to_host load_header header_image store32 store16
header_to_host-image e n h = ground (
  arith,
  ntohl-load32 e header_magic (store16 big 1 ++ (store16 big n ++ store32 big (12 + 516 * n))),
  ntohs-load16 e 1 (store16 big n ++ store32 big (12 + 516 * n)),
  ntohs-load16 e n (store32 big (12 + 516 * n)),
  ntohl-load32 e (12 + 516 * n) [],
)

-- The fields of a struct: two arrays of 256 bytes and what follows them.
module _ (n a z : List ℕ) (hn : length n ≡ 256) (ha : length a ≡ 256) where
  field_one : take 256 (n ++ (a ++ z)) ≡ n
  field_one = take-append 256 n (a ++ z) hn

  field_two : take 256 (drop 256 (n ++ (a ++ z))) ≡ a
  field_two = rw (drop-append 256 n (a ++ z) hn) (take-append 256 a z ha)

  field_three : drop 512 (n ++ (a ++ z)) ≡ z
  field_three =
      rw (← append_assoc n a z) (drop-append 512 (n ++ a) z (omega (arith, length-append n a)))

employee_to_host-image :
    (e : Endian) (x : Employee) (rest : List ℕ)
    → IsRecord x
    → employee_to_host e (load_employee e (employee_image x ++ rest)) ≡ x
unfolding employee_to_host load_employee employee_image
employee_to_host-image e x rest v = rw (
  append_assoc x.name,
  append_assoc x.address,
  field_one x.name x.address _ v.name_size v.address_size,
  field_two x.name x.address _ v.name_size v.address_size,
  field_three x.name x.address _ v.name_size v.address_size,
  ntohl-load32 e x.hours rest v.hours_fit,
)

load_employees-image :
    (e : Endian) (es : List Employee)
    → AllRecords es
    → map (employee_to_host e) (load_employees e (length es) (employees_image es)) ≡ es
unfolding load_employees employees_image
load_employees-image e [] v = refl
load_employees-image e (x ∷ es) v = rw (
  employee_to_host-image e x (employees_image es) v.0,
  drop-append 516 (employee_image x) (employees_image es) (length-employee_image x v.0),
  load_employees-image e es v.1,
)

-- On any host, a file in the format passes `validate_db_header`, which returns its header and leaves
-- the offset behind it.
pub validate_db_header-image :
    (e : Endian) (es : List Employee)
    → AllRecords es
    → length es < 65536
    → validate_db_header e true (some (record { bytes = file_image es; pos = 0 }))
      ≡ (some (header_of (length es)), some (record { bytes = file_image es; pos = 12 }))
unfolding validate_db_header check_header read_data read_file file_image
validate_db_header-image e es v h =
    rw
      (
        take-append 12 (header_image (length es)) (employees_image es) (length-header_image _),
        length-header_image,
        length-file_image es v,
      )
      (ground (arith, header_to_host-image e (length es) h))

-- `read_employees` then returns just the employees that the file was made of.
pub read_employees-image :
    (e : Endian) (es : List Employee)
    → AllRecords es
    → read_employees e true
        (some (record { bytes = file_image es; pos = 12 }))
        (header_of (length es))
      ≡ (some es, some (record { bytes = file_image es; pos = length (file_image es) }))
unfolding read_employees read_data read_file file_image
read_employees-image e es v =
    rw
      (
        drop-append 12 (header_image (length es)) (employees_image es) (length-header_image _),
        take-length (length es * 516) (employees_image es)
            (omega (arith, length-employees_image es v)),
        load_employees-image e es v,
      )
      (ground (
        arith,
        length-employees_image es v,
        length-append (header_image (length es)) (employees_image es),
        length-header_image (length es),
      ))
