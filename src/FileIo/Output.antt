-- ===== src/FileIo/Output.antt =====
-- file_output.c: a text is written to a file. What `open` returns is an argument.
use lowlevel_academy.Prelude.{ℕ, List, [], ◌∷◌, none, some, ◌==◌, if◌then◌else◌}
use lowlevel_academy.Database.{File, Fd, write_file}

-- "Hello there, file!\n"
abbrev pub my_data : List ℕ
my_data =
    b'H' ∷ b'e' ∷ b'l' ∷ b'l' ∷ b'o' ∷ b' ' ∷ b't' ∷ b'h' ∷ b'e' ∷ b'r' ∷ b'e' ∷ b',' ∷ b' ' ∷ b'f'
    ∷ b'i' ∷ b'l' ∷ b'e' ∷ b'!' ∷ 10 ∷ []

pub data Ended : Type 0 where
  usage return_minus_one : Ended
  return_zero : File → Ended

unfoldable pub with_fd : Fd → Ended
with_fd none = return_minus_one
with_fd (some f) = return_zero (write_file my_data f)

unfoldable pub main : (argc : ℕ) → (opened : Fd) → Ended
unfolding with_fd
main argc opened = if argc == 2 then with_fd opened else usage
