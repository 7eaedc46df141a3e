-- ===== src/Cli/Run.antt =====
-- main.c of the command line program.
use lowlevel_academy.Prelude.{
  ℕ, ◌+◌, ◌%◌, Bool, true, false, List, [], ◌∷◌, Option, none, some, if◌then◌else◌,
}
use lowlevel_academy.Host.{Endian}
use lowlevel_academy.Database.{Header, Employee, Fd}
use lowlevel_academy.Server.Files.{Entry}
use lowlevel_academy.Cli.{Array, Base}
use lowlevel_academy.Cli.Files.{create_db_file, open_db_file}
use lowlevel_academy.Cli.Load.{create_db_header, validate_db_header, read_employees}
use lowlevel_academy.Cli.Edit.{
  Realloc, failed, in_place, moved, reallocated, add_employee, Line, list_employees,
}
use lowlevel_academy.Cli.Save.{Saved, output_file}
pub mod Session

-- What `getopt (argc, argv, "nf:a:l")` returns, call by call.
pub data Opt : Type 0 where
  opt_n : Opt
  opt_f : List ℕ → Opt
  opt_l : Opt
  opt_a : List ℕ → Opt
  opt_unknown : Opt
  opt_other : Opt

pub record Args : Type 0 where
  pub add_string : Option (List ℕ)
  pub filepath : Option (List ℕ)
  pub list : Bool
  pub newfile : Bool

abbrev pub no_args : Args
no_args = record { add_string = none; filepath = none; list = false; newfile = false }

-- `none`: `return -1`.
unfoldable pub parse_args : List Opt → Args → Option Args
parse_args [] a = some a
parse_args (opt_n ∷ os) a = parse_args os (record a { newfile = true })
parse_args (opt_f p ∷ os) a = parse_args os (record a { filepath = some p })
parse_args (opt_l ∷ os) a = parse_args os (record a { list = true })
parse_args (opt_a s ∷ os) a = parse_args os (record a { add_string = some s })
parse_args (opt_unknown ∷ os) a = parse_args os a
parse_args (opt_other ∷ os) a = none

-- What the allocator does: whether `calloc` returns memory, for the header and for the employees,
-- and what `realloc` does.
pub record Heap : Type 0 where
  pub for_header : Bool
  pub for_employees : Bool
  pub regrown : Realloc

-- How `main` ends: with a status, the lines listed, and the file as it is left.
pub data Code : Type 0 where
  return_zero return_minus_one : Code

pub record Ended : Type 0 where
  pub code : Code
  pub lines : List Line
  pub fd : Fd

unfoldable pub ended : Code → List Line → Fd → Ended
ended c ls fd = record { code = c; lines = ls; fd = fd }

-- The header, or `none` for `return -1`.
unfoldable pub get_header : Endian → Heap → (newfile : Bool) → Fd → Option Header × Fd
get_header e m newfile none = (none, none)
get_header e m true (some f) = (create_db_header m.for_header, some f)
get_header e m false (some f) = validate_db_header e m.for_header (some f)

unfoldable pub finish : Fd → List Line → Option Saved → Option Ended
unfolding ended
finish fd ls none = none
finish fd ls (some s) = some (ended return_zero ls s.fd)

unfoldable pub save : Endian → Fd → Base → Option (List Line) → Option Ended
unfolding finish
save e fd b none = none
save e fd b (some ls) = finish fd ls (output_file e fd b)

unfoldable pub list_and_save : Endian → (list : Bool) → Fd → Base → Option Ended
unfolding save
list_and_save e true fd b = save e fd b (list_employees b.header b.array)
list_and_save e false fd b = save e fd b (some [])

unfoldable pub added : Endian → (list : Bool) → Fd → Header → Option (List Employee) → Option Ended
unfolding list_and_save
added e list fd h none = none
added e list fd h (some es) = list_and_save e list fd (record { header = h; array = some es })

-- With the count raised already, as an `unsigned short`.
unfoldable pub add_to :
    Endian → (list : Bool) → Realloc → Fd → Header → Array → List ℕ → Option Ended
unfolding added ended reallocated
add_to e list failed fd h a s = some (ended return_minus_one [] fd)
add_to e list in_place fd h a s =
    added e list fd h (add_employee h (reallocated in_place h.count a) s)
add_to e list moved fd h a s = added e list fd h (add_employee h (reallocated moved h.count a) s)

unfoldable pub edit : Endian → Heap → Args → Header → Array × Fd → Option Ended
unfolding add_to list_and_save
edit e m args h (a, fd) = elim args.add_string [
  | none ↦ list_and_save e args.list fd (record { header = h; array = a })
  | some s ↦ add_to e args.list m.regrown fd (record h { count = (h.count + 1) % 65536 }) a s
]

-- An array that cannot be read is reported, and stays NULL.
unfoldable pub use_header : Endian → Heap → Args → Option Header × Fd → Option Ended
unfolding edit ended
use_header e m args (none, fd) = some (ended return_minus_one [] fd)
use_header e m args (some h, fd) = edit e m args h (read_employees e m.for_employees fd h)

unfoldable pub open_for : (newfile : Bool) → Entry → Fd
open_for true p = create_db_file p
open_for false p = open_db_file p

unfoldable pub run_args : Endian → Heap → (List ℕ → Entry) → Option Args → Option Ended
unfolding use_header ended get_header open_for
run_args e m files none = some (ended return_minus_one [] none)
run_args e m files (some args) = elim args.filepath [
  | none ↦ some (ended return_zero [] none)
  | some path ↦
      use_header e m args (get_header e m args.newfile (open_for args.newfile (files path)))
]

-- `none` is a fault.
unfoldable pub main : Endian → Heap → (List ℕ → Entry) → List Opt → Option Ended
unfolding run_args parse_args
main e m files os = run_args e m files (parse_args os no_args)
