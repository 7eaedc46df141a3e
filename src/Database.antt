-- ===== src/Database.antt =====
-- The structs of include/parse.h, as they lie in memory, and the file that holds them.
-- (02-networking-code/05_course_project)
use lowlevel_academy.Prelude.{
  ℕ, ◌+◌, ◌*◌, ◌≡◌, ◌<◌, List, [], ◌∷◌, ◌++◌, Option, none, some, length, take, drop, replicate,
  Bool,
}
use lowlevel_academy.Host.{Endian, store16, store32, load16, load32}
use lowlevel_academy.Memory.{write_bytes}
pub mod Load
pub mod Add
pub mod Save
pub mod Format
pub mod Person
pub mod Printing

abbrev pub header_magic : ℕ
header_magic = 0x4c4c4144

-- `struct db_header_t`
pub record Header : Type 0 where
  pub magic : ℕ  -- unsigned int
  pub version : ℕ  -- unsigned short
  pub count : ℕ  -- unsigned short
  pub filesize : ℕ  -- unsigned int

-- `struct employee_t`: two arrays of 256 characters and an `unsigned int`.
pub record Employee : Type 0 where
  pub name : List ℕ
  pub address : List ℕ
  pub hours : ℕ

abbrev pub text_size : ℕ
text_size = 256

-- `sizeof (struct db_header_t)` and `sizeof (struct employee_t)`: neither struct is padded.
abbrev pub header_size : ℕ
header_size = 12

abbrev pub employee_size : ℕ
employee_size = 516

-- The bytes of the structs in the host's memory, and back.
unfoldable pub store_header : Endian → Header → List ℕ
store_header e h =
    store32 e h.magic ++ (store16 e h.version ++ (store16 e h.count ++ store32 e h.filesize))

unfoldable pub load_header : Endian → List ℕ → Header
load_header e bs = record {
  magic = load32 e bs;
  version = load16 e (drop 4 bs);
  count = load16 e (drop 6 bs);
  filesize = load32 e (drop 8 bs);
}

unfoldable pub store_employee : Endian → Employee → List ℕ
store_employee e x = x.name ++ (x.address ++ store32 e x.hours)

unfoldable pub load_employee : Endian → List ℕ → Employee
load_employee e bs = record {
  name = take text_size bs;
  address = take text_size (drop text_size bs);
  hours = load32 e (drop 512 bs);
}

-- An open file. A descriptor is `none` for -1, and `some f` for a file that is open.
pub record File : Type 0 where
  pub bytes : List ℕ
  pub pos : ℕ

abbrev pub Fd : Type 0
Fd = Option File

-- `read (fd, p, n)`: the bytes that it puts at `p`; their number is what it returns.
unfoldable pub read_data : ℕ → File → List ℕ
read_data n f = take n (drop f.pos f.bytes)

unfoldable pub read_file : ℕ → File → File
unfolding read_data
read_file n f = record f { pos = f.pos + length (read_data n f) }

-- `write` on a regular file, which takes all of the bytes.
unfoldable pub write_file : List ℕ → File → File
write_file bs f = record { bytes = write_bytes f.pos bs f.bytes; pos = f.pos + length bs }

-- `lseek (fd, 0, SEEK_SET)`
unfoldable pub rewind : File → File
rewind f = record f { pos = 0 }
