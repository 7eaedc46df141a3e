-- ===== src/Database/Load.antt =====
-- `create_db_header`, `validate_db_header` and `read_employees` of parse.c.
use lowlevel_academy.Prelude.{
  ℕ, zero, suc, ◌*◌, Bool, true, false, List, [], ◌∷◌, map, Option, none, some, length, drop, ◌==◌,
  if◌then◌else◌,
}
use lowlevel_academy.Host.{Endian, ntohs, ntohl}
use lowlevel_academy.Database.{
  Header, Employee, header_magic, header_size, employee_size, load_header, load_employee, Fd, File,
  read_data, read_file,
}
pub mod Reopen

-- `allocated`: `calloc` returned memory. `some h` is STATUS_SUCCESS with `*headerOut = h`, and
-- `none` STATUS_ERROR with `*headerOut` as it was.
unfoldable pub create_db_header : (allocated : Bool) → Option Header
create_db_header allocated =
    if allocated
    then some (record { version = 0x01; count = 0; magic = header_magic; filesize = header_size })
    else none

unfoldable pub header_to_host : Endian → Header → Header
header_to_host e h = record {
  version = ntohs e h.version;
  count = ntohs e h.count;
  magic = ntohl e h.magic;
  filesize = ntohl e h.filesize;
}

-- The checks on the header, with `st_size` from `fstat`.
unfoldable pub check_header : ℕ → Header → Option Header
check_header st_size h =
    if h.version == 1
    then (if h.magic == header_magic
        then (if h.filesize == st_size then some h else none)
        else none)
    else none

unfoldable pub validate_file : Endian → File → Option Header
unfolding check_header
validate_file e f =
    if length (read_data header_size f) == header_size
    then check_header (length f.bytes) (header_to_host e (load_header e (read_data header_size f)))
    else none

-- Beside the result, the descriptor afterwards: its offset moves when the header is read.
unfoldable pub validate_db_header : Endian → (allocated : Bool) → Fd → Option Header × Fd
unfolding validate_file
validate_db_header e allocated none = (none, none)
validate_db_header e false (some f) = (none, some f)
validate_db_header e true (some f) = (validate_file e f, some (read_file header_size f))

-- The array that was read, of `count` structs.
unfoldable pub load_employees : Endian → ℕ → List ℕ → List Employee
load_employees e zero bs = []
load_employees e (suc n) bs = load_employee e bs ∷ load_employees e n (drop employee_size bs)

unfoldable pub employee_to_host : Endian → Employee → Employee
employee_to_host e x = record x { hours = ntohl e x.hours }

unfoldable pub read_from : Endian → ℕ → File → Option (List Employee)
unfolding load_employees employee_to_host
read_from e count f =
    if length (read_data (count * employee_size) f) == count * employee_size
    then some
        (map (employee_to_host e) (load_employees e count (read_data (count * employee_size) f)))
    else none

unfoldable pub read_employees :
    Endian → (allocated : Bool) → Fd → Header → Option (List Employee) × Fd
unfolding read_from
read_employees e allocated none h = (none, none)
read_employees e false (some f) h = (none, some f)
read_employees e true (some f) h =
    (read_from e h.count f, some (read_file (h.count * employee_size) f))
