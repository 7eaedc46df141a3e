-- ===== src/Server/Startup.antt =====
-- `main` of src/server/main.c, up to the call of `poll_loop`.
use lowlevel_academy.Prelude.{
  ℕ, ◌%◌, Bool, true, false, List, [], ◌∷◌, Option, none, some, ◌==◌, if◌then◌else◌,
}
use lowlevel_academy.Host.{Endian}
use lowlevel_academy.Cstring.{atoi}
use lowlevel_academy.Database.{Header, Employee, Fd}
use lowlevel_academy.Database.Add.{Db}
use lowlevel_academy.Database.Load.{create_db_header, validate_db_header, read_employees}
use lowlevel_academy.Server.Files.{Entry, create_db_file, open_db_file}
pub mod Restart

-- What `getopt (argc, argv, "nf:p:")` returns, call by call.
pub data Opt : Type 0 where
  opt_n : Opt
  opt_f : List ℕ → Opt
  opt_p : List ℕ → Opt
  opt_unknown : Opt
  opt_other : Opt

pub record Args : Type 0 where
  pub newfile_arg : Bool
  pub filepath_arg : Option (List ℕ)
  pub port : ℕ

abbrev pub no_args : Args
no_args = record { newfile_arg = false; filepath_arg = none; port = 0 }

-- `none`: `return -1`. The port is what `atoi` returns, as an `unsigned short`.
unfoldable pub parse_args : List Opt → Args → Option Args
parse_args [] a = some a
parse_args (opt_n ∷ os) a = parse_args os (record a { newfile_arg = true })
parse_args (opt_f p ∷ os) a = parse_args os (record a { filepath_arg = some p })
parse_args (opt_p t ∷ os) a = parse_args os (record a { port = atoi t % 65536 })
parse_args (opt_unknown ∷ os) a = parse_args os a
parse_args (opt_other ∷ os) a = none

-- Whether the two calls of `calloc` return memory.
pub record Memory : Type 0 where
  pub for_header : Bool
  pub for_employees : Bool

abbrev pub Loaded : Type 0
Loaded = Option (Header × Fd)

unfoldable pub with_fd : Fd → Option Header → Loaded
with_fd fd none = none
with_fd fd (some h) = some (h, fd)

unfoldable pub create_database : Memory → Fd → Loaded
unfolding with_fd
create_database m none = none
create_database m (some f) = with_fd (some f) (create_db_header m.for_header)

unfoldable pub load_database : Endian → Memory → Fd → Loaded
unfolding with_fd
load_database e m none = none
load_database e m (some f) =
    let (h, fd) = validate_db_header e m.for_header (some f) in with_fd fd h

-- A failure of `read_employees` is printed, and `employees` stays NULL: no employee can be read.
unfoldable pub employees_or_null : Option (List Employee) → List Employee
employees_or_null none = []
employees_or_null (some es) = es

unfoldable pub finish_open : Endian → Memory → Loaded → Option (Db × Fd)
unfolding employees_or_null
finish_open e m none = none
finish_open e m (some (h, fd)) =
    let (es, fd') = read_employees e m.for_employees fd h in
    some (record { header = h; employees = employees_or_null es }, fd')

-- `none`: `return -1`.
unfoldable pub open_database : Endian → Memory → (newfile : Bool) → Entry → Option (Db × Fd)
unfolding finish_open create_database load_database
open_database e m true p = finish_open e m (create_database m (create_db_file p))
open_database e m false p = finish_open e m (load_database e m (open_db_file p))

-- How `main` ends: `return 0`, `return -1`, or in the loop, which does not return.
pub data Run : Type 0 where
  return_zero : Run
  return_minus_one : Run
  poll_loop : ℕ → Db → Fd → Run

unfoldable pub serve : ℕ → Option (Db × Fd) → Run
serve port none = return_minus_one
serve port (some (db, fd)) = poll_loop port db fd

unfoldable pub run_args : Endian → Memory → (List ℕ → Entry) → Option Args → Run
unfolding serve
run_args e m files none = return_minus_one
run_args e m files (some a) = elim a.filepath_arg [
  | none ↦ return_zero
  | some path ↦
      if a.port == 0
      then return_zero
      else serve a.port (open_database e m a.newfile_arg (files path))
]

unfoldable pub main : Endian → Memory → (List ℕ → Entry) → List Opt → Run
unfolding run_args parse_args
main e m files os = run_args e m files (parse_args os no_args)
