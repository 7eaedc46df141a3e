-- ===== src/Cli/Run/Session.antt =====
-- Whole runs of the command line program.
use lowlevel_academy.Prelude.{
  ℕ, ◌+◌, ◌*◌, ◌%◌, ◌≡◌, ◌<◌, ◌≤◌, refl, true, false, List, [], ◌∷◌, ◌++◌, map, some, arith, length,
  length-append, length-map,
}
use lowlevel_academy.Host.{Endian}
use lowlevel_academy.Memory.{put_over-all}
use lowlevel_academy.Database.{Header, Employee, File, read_file, read_data}
use lowlevel_academy.Database.Add.{new_employee}
use lowlevel_academy.Database.Add.Outcome.{new_employee-IsRecord}
use lowlevel_academy.Database.Add.Text.{Parts, joined, AllRecords-append}
use lowlevel_academy.Database.Format.{file_image, AllRecords, IsValid, length-file_image}
use lowlevel_academy.Database.Load.Reopen.{
  header_of, validate_db_header-image, read_employees-image,
}
use lowlevel_academy.Server.Files.{Entry, absent, regular}
use lowlevel_academy.Cli.Files.{open_db_file, create_db_file}
use lowlevel_academy.Cli.Load.{validate_db_header, read_employees, employees_from, create_db_header}
use lowlevel_academy.Cli.Load.Reopen.{load_same}
use lowlevel_academy.Cli.Edit.{Realloc, in_place, Line}
use lowlevel_academy.Cli.Edit.Adding.{AreParts, add_employee-in_place}
use lowlevel_academy.Database.Person.{Person, ArePersons, recorded, recorded-AllRecords}
use lowlevel_academy.Cli.Edit.Listing.{lines_from, list_employees-recorded}
use lowlevel_academy.Cli.Save.Image.{output_file_net}
use lowlevel_academy.Cli.Run.{
  opt_n, opt_f, opt_l, opt_a, Args, Heap, Ended, return_zero, edit, list_and_save, save, added,
  add_to, use_header, main,
}

-- The calls of `calloc` return memory.
abbrev pub heap : Realloc → Heap
heap r = record { for_header = true; for_employees = true; regrown = r }

-- The file in the format, with the offset at its end.
abbrev pub kept : List Employee → File
kept es = record { bytes = file_image es; pos = length (file_image es) }

-- `return 0`.
abbrev pub ends : List Line → List Employee → Ended
ends ls es = record { code = return_zero; lines = ls; fd = some (kept es) }

-- The header that the employees have, whatever its field `filesize`.
abbrev counting : ℕ → ℕ → Header
counting n filesize = record (header_of n) { filesize = filesize }

counting-IsValid :
    (n k : ℕ) (es : List Employee)
    → n ≡ length es
    → n < 65536
    → AllRecords es
    → IsValid (record { header = counting n k; employees = es })
counting-IsValid n k es p fit v = record {
  magic = refl;
  version = refl;
  counted = p;
  count_fits = fit;
  records = v;
}

-- The end of a run: the file is rewritten, over one that is no longer.
save-kept :
    (e : Endian) (n k : ℕ) (f : File) (es : List Employee) (ls : List Line)
    → n ≡ length es
    → n < 65536
    → AllRecords es
    → length f.bytes ≤ 12 + 516 * length es
    → save e (some f) (record { header = counting n k; array = some es }) (some ls)
      ≡ some (ends ls es)
unfolding save
save-kept e n k f es ls p fit v short =
    rw
      (
        output_file_net e f (counting n k) es (counting-IsValid n k es p fit v),
        put_over-all (file_image es) f.bytes (omega (arith, length-file_image es v)),
      )
      refl

-- From a file that is open on, up to the edit.
use_header-image :
    (e : Endian) (r : Realloc) (args : Args) (es : List Employee)
    → AllRecords es
    → length es < 65536
    → use_header e
        (heap r)
        args
        (validate_db_header e true (some (record { bytes = file_image es; pos = 0 })))
      ≡ edit e (heap r) args (header_of (length es)) (some es, some (kept es))
unfolding use_header
use_header-image e r args es v n =
    rw
      (
        (load_same e true (some (record { bytes = file_image es; pos = 0 })) (header_of 0)).0,
        validate_db_header-image e es v n,
        (load_same e true (some (record { bytes = file_image es; pos = 12 }))
            (header_of (length es))).1,
        read_employees-image e es v,
      )
      refl

-- The edit of the array that was read, with one more employee.
add_to-in_place :
    (e : Endian) (h : Header) (es : List Employee) (t : Parts)
    → h ≡ counting (length es + 1) (12 + 516 * length es)
    → AllRecords es
    → length es < 65535
    → AreParts t
    → add_to e false in_place (some (kept es)) h (some es) (joined t)
      ≡ some (ends [] (es ++ new_employee t.name t.address t.hours ∷ []))
unfolding add_to added list_and_save
add_to-in_place e h es t q v room parts =
    let x : Employee = new_employee t.name t.address t.hours in
    rw (q, add_employee-in_place (counting (length es + 1) (12 + 516 * length es)) es t parts refl)
      (save-kept e (length es + 1) (12 + 516 * length es) (kept es) (es ++ x ∷ []) []
        (omega (arith, length-append es (x ∷ []))) (omega arith)
        (AllRecords-append es x v (new_employee-IsRecord t.name t.address t.hours))
        (omega (arith, length-append es (x ∷ []), length-file_image es v)))

raised :
    (n k : ℕ) → n < 65535 → record (counting n k) { count = (n + 1) % 65536 } ≡ counting (n + 1) k
raised n k h = ground arith

-- A run with `-f` and `-a name,address,hours` on a file in the format with fewer than 65535
-- employees, of parts that are not empty and have no comma: when `realloc` grows the block where it
-- is, `main` returns 0, and the file is the image of the old employees and, behind them, the new
-- one.
pub add_session :
    (e : Endian) (files : List ℕ → Entry) (path : List ℕ) (es : List Employee) (t : Parts)
    → files path ≡ regular (file_image es)
    → AllRecords es
    → length es < 65535
    → AreParts t
    → main e (heap in_place) files (opt_f path ∷ opt_a (joined t) ∷ [])
      ≡ some (ends [] (es ++ new_employee t.name t.address t.hours ∷ []))
unfolding main open_db_file edit
add_session e files path es t p v room parts =
    rw (p, use_header-image e in_place _ es v (omega arith))
      (add_to-in_place e _ es t (raised (length es) (12 + 516 * length es) room) v room parts)

-- A run with `-f` and `-l` on a file of persons whose texts have fewer than 256 characters and no
-- NUL prints these persons in order, numbered from 0, returns 0, and leaves the bytes of the file as
-- they were.
pub list_session :
    (e : Endian) (r : Realloc) (files : List ℕ → Entry) (path : List ℕ) (xs : List Person)
    → files path ≡ regular (file_image (map recorded xs))
    → ArePersons xs
    → length xs < 65536
    → main e (heap r) files (opt_f path ∷ opt_l ∷ [])
      ≡ some (ends (lines_from 0 xs) (map recorded xs))
unfolding main open_db_file edit list_and_save
list_session e r files path xs p v room =
    let es : List Employee = map recorded xs in
    let n : length es ≡ length xs = length-map xs recorded in
    rw
      (
        p,
        use_header-image e r _ es (recorded-AllRecords xs v) (omega (arith, n)),
        list_employees-recorded (header_of (length es)) xs v n,
      )
      (save-kept e (length es) (12 + 516 * length es) (kept es) es (lines_from 0 xs) refl
        (omega (arith, n)) (recorded-AllRecords xs v)
        (omega (arith, length-file_image es (recorded-AllRecords xs v))))

-- A run with `-n` and `-f` at a path where nothing is and a file may be made returns 0 and leaves a
-- file with no employees, in the format.
pub create_session :
    (e : Endian) (r : Realloc) (files : List ℕ → Entry) (path : List ℕ)
    → files path ≡ absent true
    → main e (heap r) files (opt_n ∷ opt_f path ∷ []) ≡ some (ends [] [])
unfolding main create_db_file use_header create_db_header read_employees employees_from edit
    list_and_save read_file read_data
create_session e r files path p =
    rw p
      (save-kept e 0 12 (record { bytes = []; pos = 0 }) [] [] refl (omega arith) tt (omega arith))
