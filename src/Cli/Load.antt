-- ===== src/Cli/Load.antt =====
-- `create_db_header`, `validate_db_header` and `read_employees` of the command line program's
-- parse.c. Their statements are those of the server's parse.c.
use lowlevel_academy.Prelude.{
  ℕ, ◌*◌, ◌≡◌, refl, Bool, true, false, map, Option, none, some, List, length, ◌==◌, not,
  if◌then◌else◌,
}
use lowlevel_academy.Host.{Endian, ntohs, ntohl}
use lowlevel_academy.Database.{
  Header, Employee, header_magic, header_size, employee_size, load_header, Fd, File, read_data,
  read_file,
}
use lowlevel_academy.Database.Load.{load_employees, employee_to_host}
use lowlevel_academy.Cli.{Array}
pub mod Reopen

unfoldable pub create_db_header : (allocated : Bool) → Option Header
create_db_header false = none
create_db_header true =
    some (record { version = 0x01; count = 0; magic = header_magic; filesize = header_size })

-- The three early returns, on the header as it was read and on `st_size`.
unfoldable pub check_header : Endian → (st_size : ℕ) → Header → Option Header
check_header e st_size h =
    let host : Header = record {
      version = ntohs e h.version;
      count = ntohs e h.count;
      magic = ntohl e h.magic;
      filesize = ntohl e h.filesize;
    } in
    if not (host.version == 1)
    then none
    else if not (host.magic == header_magic)
    then none
    else if not (host.filesize == st_size)
    then none
    else some host

unfoldable pub header_from : Endian → File → Option Header
unfolding check_header
header_from e f =
    if not (length (read_data header_size f) == header_size)
    then none
    else check_header e (length f.bytes) (load_header e (read_data header_size f))

-- Beside the result, the descriptor with its offset afterwards.
unfoldable pub validate_db_header : Endian → (allocated : Bool) → Fd → Option Header × Fd
unfolding header_from
validate_db_header e allocated none = (none, none)
validate_db_header e false (some f) = (none, some f)
validate_db_header e true (some f) = (header_from e f, some (read_file header_size f))

unfoldable pub employees_from : Endian → ℕ → File → Array
unfolding load_employees employee_to_host
employees_from e count f =
    if not (length (read_data (count * employee_size) f) == count * employee_size)
    then none
    else some
        (map (employee_to_host e) (load_employees e count (read_data (count * employee_size) f)))

unfoldable pub read_employees : Endian → (allocated : Bool) → Fd → Header → Array × Fd
unfolding employees_from
read_employees e allocated none h = (none, none)
read_employees e false (some f) h = (none, some f)
read_employees e true (some f) h =
    (employees_from e h.count f, some (read_file (h.count * employee_size) f))
