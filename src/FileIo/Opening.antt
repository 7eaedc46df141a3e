-- ===== src/FileIo/Opening.antt =====
-- file_descriptors.c of 01-lowlevel-academy-c/09_file_input_output and errno.c of 08_glibc_errno, which
-- are the same: what `open` returns is looked at, and the descriptor is left to the end of the process.
use lowlevel_academy.Prelude.{false, [], none, some}
use lowlevel_academy.Database.{Fd}
use lowlevel_academy.FileIo.Header.{return_zero, return_minus_one, Ended}

unfoldable pub main : (opened : Fd) → Ended
main none = record { code = return_minus_one; lines = []; closed = false }
main (some f) = record { code = return_zero; lines = []; closed = false }
