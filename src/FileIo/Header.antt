-- ===== src/FileIo/Header.antt =====
-- file_input.c: the header of a file is read and printed. What `open` returns is an argument.
use lowlevel_academy.Prelude.{
  ℕ, Bool, true, false, List, [], ◌∷◌, none, some, drop, length, ◌==◌, if◌then◌else◌,
}
use lowlevel_academy.Host.{Endian, load16, load32}
use lowlevel_academy.Database.{Fd, read_data}

-- `struct database_header_t`: eight bytes, with no padding.
pub record DatabaseHeader : Type 0 where
  pub version : ℕ
  pub employees : ℕ
  pub file_size : ℕ

unfoldable pub load_header : Endian → List ℕ → DatabaseHeader
load_header e bs = record {
  version = load16 e bs;
  employees = load16 e (drop 2 bs);
  file_size = load32 e (drop 4 bs);
}

-- The lines that the programs print.
pub data Line : Type 0 where
  usage : Line
  db_version : ℕ → Line
  db_employees : ℕ → Line
  db_length : ℕ → Line
  stat_length : ℕ → Line
  hacker : Line

pub data Code : Type 0 where
  return_zero return_minus_one return_minus_two : Code

-- How `main` ends: its status, what it printed, and whether it has closed the descriptor it opened.
pub record Ended : Type 0 where
  pub code : Code
  pub lines : List Line
  pub closed : Bool

unfoldable pub header_lines : DatabaseHeader → List Line
header_lines h = db_version h.version ∷ db_employees h.employees ∷ db_length h.file_size ∷ []

unfoldable pub print_header : Endian → List ℕ → Ended
unfolding load_header header_lines
print_header e bs =
    if length bs == 8
    then record { code = return_zero; lines = header_lines (load_header e bs); closed = true }
    else record { code = return_minus_one; lines = []; closed = true }

unfoldable pub with_fd : Endian → Fd → Ended
unfolding print_header
with_fd e none = record { code = return_minus_one; lines = []; closed = false }
with_fd e (some f) = print_header e (read_data 8 f)

unfoldable pub main : Endian → (argc : ℕ) → (opened : Fd) → Ended
unfolding with_fd
main e argc opened =
    if argc == 2
    then with_fd e opened
    else record { code = return_zero; lines = usage ∷ []; closed = false }
