-- ===== src/FileIo/Count.antt =====
-- 11_advanced_c/src: main.c, parse.c and file.c. The number of employees is read from a header of four
-- bytes. No path closes the descriptor.
use lowlevel_academy.Prelude.{ℕ, List, Option, none, some, drop, length, ◌==◌, if◌then◌else◌}
use lowlevel_academy.Host.{Endian, load16}
use lowlevel_academy.Database.{Fd, read_data}
use lowlevel_academy.Server.Files.{Entry, open_rdwr}

unfoldable pub open_file_rw : Entry → Fd
unfolding open_rdwr
open_file_rw p = open_rdwr p

-- `struct dbHeader_t`
pub record DbHeader : Type 0 where
  pub version : ℕ
  pub count : ℕ

unfoldable pub load_header : Endian → List ℕ → DbHeader
load_header e bs = record { version = load16 e bs; count = load16 e (drop 2 bs) }

-- `some n`: STATUS_SUCCESS, with `n` written to `*numEmployeesOut`. `none`: STATUS_ERROR.
unfoldable pub parse_file_header : Endian → Fd → Option ℕ
unfolding load_header
parse_file_header e none = none
parse_file_header e (some f) =
    if length (read_data 4 f) == 4 then some (load_header e (read_data 4 f)).count else none

-- How `main` ends: with the usage, with -1, or with the number printed.
pub data Ended : Type 0 where
  usage return_minus_one : Ended
  employees_stored : ℕ → Ended

unfoldable pub report : Option ℕ → Ended
report none = return_minus_one
report (some n) = employees_stored n

unfoldable pub with_fd : Endian → Fd → Ended
unfolding parse_file_header report
with_fd e none = return_minus_one
with_fd e (some f) = report (parse_file_header e (some f))

unfoldable pub main : Endian → (argc : ℕ) → Entry → Ended
unfolding with_fd open_file_rw
main e argc p = if argc == 2 then with_fd e (open_file_rw p) else usage
