-- ===== src/FileIo/Metadata.antt =====
-- file_metadata.c: the size that the header tells is compared with the size of the file.
use lowlevel_academy.Prelude.{
  ℕ, Bool, true, false, List, [], ◌∷◌, ◌++◌, Option, none, some, length, ◌==◌, if◌then◌else◌,
}
use lowlevel_academy.Host.{Endian}
use lowlevel_academy.Database.{File, Fd, read_data}
use lowlevel_academy.FileIo.Header.{
  DatabaseHeader, load_header, Line, usage, stat_length, hacker, Code, return_zero,
  return_minus_one, return_minus_two, Ended, header_lines,
}
pub mod Laws

-- `fstat` succeeded, and reported `st_size`.
unfoldable pub check_size : DatabaseHeader → (st_size : ℕ) → Ended
unfolding header_lines
check_size h st_size =
    let lines = header_lines h ++ stat_length st_size ∷ [] in
    if st_size == h.file_size
    then record { code = return_zero; lines = lines; closed = true }
    else record { code = return_minus_two; lines = lines ++ hacker ∷ []; closed = true }

unfoldable pub stat_file : (stat : Bool) → DatabaseHeader → File → Ended
unfolding check_size header_lines
stat_file true h f = check_size h (length f.bytes)
stat_file false h f = record { code = return_minus_one; lines = header_lines h; closed = true }

unfoldable pub read_header : Endian → (stat : Bool) → File → Ended
unfolding stat_file load_header
read_header e stat f =
    if length (read_data 8 f) == 8
    then stat_file stat (load_header e (read_data 8 f)) f
    else record { code = return_minus_one; lines = []; closed = true }

unfoldable pub with_fd : Endian → (stat : Bool) → Fd → Ended
unfolding read_header
with_fd e stat none = record { code = return_minus_one; lines = []; closed = false }
with_fd e stat (some f) = read_header e stat f

-- `stat`: whether `fstat` succeeds.
unfoldable pub main : Endian → (stat : Bool) → (argc : ℕ) → (opened : Fd) → Ended
unfolding with_fd
main e stat argc opened =
    if argc == 2
    then with_fd e stat opened
    else record { code = return_zero; lines = usage ∷ []; closed = false }
