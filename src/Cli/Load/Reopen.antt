-- ===== src/Cli/Load/Reopen.antt =====
-- The command line program reads a file as the server does.
use lowlevel_academy.Prelude.{ℕ, ◌≡◌, refl, Bool, true, false, none, some, arith}
use lowlevel_academy.Host.{Endian}
use lowlevel_academy.Database.{Header, Fd, File}
use lowlevel_academy.Database.Load as Db
use lowlevel_academy.Database.Load.{header_to_host, validate_file, read_from}
use lowlevel_academy.Cli.Load.{
  check_header, header_from, validate_db_header, employees_from, read_employees,
}

-- `check_header` of the server, on the header that it has converted.
check_header_same :
    (e : Endian) (n : ℕ) (h : Header) → check_header e n h ≡ Db.check_header n (header_to_host e h)
unfolding check_header Db.check_header header_to_host
check_header_same e n h = ground arith

header_from_same : (e : Endian) (f : File) → header_from e f ≡ validate_file e f
unfolding header_from validate_file
header_from_same e f = rw check_header_same (ground arith)

employees_from_same : (e : Endian) (n : ℕ) (f : File) → employees_from e n f ≡ read_from e n f
unfolding employees_from read_from
employees_from_same e n f = ground arith

-- On every descriptor and for every count, `validate_db_header` and `read_employees` return what the
-- functions of these names in the server return, and leave the descriptor the same.
pub load_same :
    (e : Endian) (allocated : Bool) (fd : Fd) (h : Header)
    → (validate_db_header e allocated fd ≡ Db.validate_db_header e allocated fd)
      × (read_employees e allocated fd h ≡ Db.read_employees e allocated fd h)
unfolding validate_db_header read_employees Db.validate_db_header Db.read_employees
load_same e b none h = (refl, refl)
load_same e false (some f) h = (refl, refl)
load_same e true (some f) h = (rw header_from_same refl, rw employees_from_same refl)
