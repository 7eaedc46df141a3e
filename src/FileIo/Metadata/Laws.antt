-- ===== src/FileIo/Metadata/Laws.antt =====
-- What the two programs make of a file.
use lowlevel_academy.Prelude.{
  ℕ, ◌+◌, ◌≡◌, ◌<◌, ◌==◌, if◌then◌else◌, refl, true, List, [], ◌∷◌, ◌++◌, some, length, drop, arith,
  take-append, length-append,
}
use lowlevel_academy.Host.{Endian, little, big, store16, store32, load16, load32}
use lowlevel_academy.Host.Laws.{load16-store16}
use lowlevel_academy.Database.{File, read_data}
use lowlevel_academy.FileIo.Header as Header
use lowlevel_academy.FileIo.Header.{
  DatabaseHeader, load_header, header_lines, Line, stat_length, hacker, Ended, return_zero,
  return_minus_two, print_header,
}
use lowlevel_academy.FileIo.Metadata as Metadata
use lowlevel_academy.FileIo.Metadata.{check_size, stat_file, read_header}

-- A header in the host's memory.
unfoldable pub image : Endian → DatabaseHeader → List ℕ
image e h = store16 e h.version ++ (store16 e h.employees ++ store32 e h.file_size)

abbrev pub opened : List ℕ → File
opened bs = record { bytes = bs; pos = 0 }

-- Its fields fit their types.
pub record IsTyped (h : DatabaseHeader) : Type 0 where
  pub version : h.version < 65536
  pub employees : h.employees < 65536
  pub file_size : h.file_size < 4294967296

length-image : (e : Endian) (h : DatabaseHeader) → length (image e h) ≡ 8
unfolding image store16 store32
length-image little h = refl
length-image big h = refl

load_version : (e : Endian) (h : DatabaseHeader) → IsTyped h → load16 e (image e h) ≡ h.version
unfolding image
load_version e h v = load16-store16 e h.version _ v.version

load_employees :
    (e : Endian) (h : DatabaseHeader) → IsTyped h → load16 e (drop 2 (image e h)) ≡ h.employees
unfolding image store16 load16
load_employees little h v = omega (arith, v.employees)
load_employees big h v = omega (arith, v.employees)

load_size :
    (e : Endian) (h : DatabaseHeader) → IsTyped h → load32 e (drop 4 (image e h)) ≡ h.file_size
unfolding image store16 store32 load32
load_size little h v = omega (arith, v.file_size)
load_size big h v = omega (arith, v.file_size)

load_header-image : (e : Endian) (h : DatabaseHeader) → IsTyped h → load_header e (image e h) ≡ h
unfolding load_header
load_header-image e h v = rw (load_version e h v, load_employees e h v, load_size e h v) refl

read_data-image :
    (e : Endian) (h : DatabaseHeader) (rest : List ℕ)
    → read_data 8 (opened (image e h ++ rest)) ≡ image e h
unfolding read_data
read_data-image e h rest = take-append 8 (image e h) rest (length-image e h)

-- How file_metadata.c ends: with 0 if the header tells the size of the file, and otherwise with -2.
abbrev pub checked : DatabaseHeader → (size : ℕ) → Ended
checked h size =
    if size == h.file_size
    then record {
      code = return_zero;
      lines = header_lines h ++ stat_length size ∷ [];
      closed = true;
    }
    else record {
      code = return_minus_two;
      lines = header_lines h ++ stat_length size ∷ hacker ∷ [];
      closed = true;
    }

-- A file that starts with a header in the host's byte order, whatever follows, and that is the one
-- argument and can be opened: file_input.c prints the three fields of the header and returns 0. file_metadata.c, if `fstat` succeeds, prints them too and then the size
-- of the file; it returns 0 if the header tells that size, and otherwise calls it out and returns -2.
-- Both close the file.
pub headers_lem :
    (e : Endian) (h : DatabaseHeader) (rest : List ℕ)
    → IsTyped h
    → (Header.main e 2 (some (opened (image e h ++ rest)))
        ≡ record { code = return_zero; lines = header_lines h; closed = true })
      × (Metadata.main e true 2 (some (opened (image e h ++ rest))) ≡ checked h (8 + length rest))
unfolding Header.main Header.with_fd print_header Metadata.main Metadata.with_fd read_header
    stat_file check_size header_lines
headers_lem e h rest v =
    let bytes = read_data-image e h rest in
    let size : length (image e h ++ rest) ≡ 8 + length rest =
      omega (arith, length-append (image e h) rest, length-image e h) in
    (
      rw (bytes, length-image e h, load_version e h v, load_employees e h v, load_size e h v) refl,
      rw (bytes, length-image e h, load_version e h v, load_employees e h v, load_size e h v, size)
          refl,
    )
