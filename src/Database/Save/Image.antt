-- ===== src/Database/Save/Image.antt =====
-- What `output_file` writes, and in what state it leaves the database.
use lowlevel_academy.Prelude.{
  ℕ, zero, suc, ◌+◌, ◌*◌, ◌≡◌, ◌<◌, refl, ap, List, [], ◌∷◌, ◌++◌, some, arith, length,
  length-append,
}
use lowlevel_academy.Host.{Endian, ntohl}
use lowlevel_academy.Host.Laws.{store16-htons, store32-htonl, ntohs-htons, ntohl-htonl}
use lowlevel_academy.Memory.{put_over, write_bytes, write-write, write_bytes-nil}
use lowlevel_academy.Database.{
  Header, Employee, File, write_file, store_header, store_employee, rewind,
}
use lowlevel_academy.Database.Add.{Db}
use lowlevel_academy.Database.Save.{
  header_to_net, header_restored, hours_to_net, hours_restored, write_employees, output_file,
}
use lowlevel_academy.Database.Format.{
  employee_image, employees_image, header_image, file_image, IsRecord, AllRecords, IsValid,
}

-- Two writes in a row write the bytes of both.
pub write_file-write_file :
    (a b : List ℕ) (f : File) → write_file b (write_file a f) ≡ write_file (a ++ b) f
unfolding write_file
write_file-write_file a b f =
    ground (arith, write-write f.pos (f.pos + length a) a b f.bytes refl, length-append a b)

pub write_file-rewind :
    (a : List ℕ) (f : File)
    → write_file a (rewind f) ≡ record { bytes = put_over a f.bytes; pos = length a }
unfolding write_file rewind write_bytes
write_file-rewind a f = ground arith

pub store_employee-hours_to_net :
    (e : Endian) (x : Employee) → store_employee e (hours_to_net e x) ≡ employee_image x
unfolding store_employee hours_to_net employee_image
store_employee-hours_to_net e x = ap (λ t. x.name ++ (x.address ++ t)) (store32-htonl e x.hours)

hours_restored_lem :
    (e : Endian) (x : Employee) → IsRecord x → hours_restored e (hours_to_net e x) ≡ x
unfolding hours_restored hours_to_net
hours_restored_lem e x v = rw (ntohl-htonl e x.hours v.hours_fit)

pub write_file-nil : (f : File) → f ≡ write_file [] f
unfolding write_file
write_file-nil f = ground (arith, write_bytes-nil f.pos f.bytes)

write_employees_lem :
    (e : Endian) (n : ℕ) (es : List Employee) (f : File)
    → AllRecords es
    → n ≡ length es
    → write_employees e n es f
      ≡ some (record { left = es; file = write_file (employees_image es) f })
unfolding write_employees employees_image
write_employees_lem e zero [] f v p =
    ap (λ g. some (record { left = []; file = g })) (write_file-nil f)
write_employees_lem e zero (x ∷ es) f v p = absurd (omega arith)
write_employees_lem e (suc n) [] f v p = absurd (omega arith)
write_employees_lem e (suc n) (x ∷ es) f v p = rw (
  store_employee-hours_to_net,
  hours_restored_lem e x v.0,
  write_employees_lem e n es (write_file (employee_image x) f) v.1 (omega arith),
  write_file-write_file,
)

pub store_header-net :
    (e : Endian) (h : Header) (n : ℕ)
    → h.magic ≡ 0x4c4c4144
    → h.version ≡ 1
    → h.count ≡ n
    → store_header e (header_to_net e (12 + 516 * h.count) h) ≡ header_image n
unfolding store_header header_to_net header_image
store_header-net e h n p q r = cc (
  store32-htonl e h.magic,
  store16-htons e h.version,
  store16-htons e h.count,
  store32-htonl e (12 + 516 * h.count),
)

-- The header that `output_file` leaves: as it was, but for the field `filesize`.
abbrev pub left_header : Endian → Header → Header
left_header e h = record h { filesize = ntohl e (12 + 516 * h.count) }

header_restored_lem :
    (e : Endian) (n : ℕ) (h : Header)
    → h.magic ≡ 0x4c4c4144
    → h.version ≡ 1
    → h.count < 65536
    → header_restored e n (header_to_net e n h) ≡ record h { filesize = ntohl e n }
unfolding header_restored header_to_net
header_restored_lem e n h p q r =
    ground (arith, ntohl-htonl e h.magic, ntohs-htons e h.version, ntohs-htons e h.count)

-- On any host, `output_file` of a valid database writes the image of its employees over the front
-- of the file, leaves the employees as they were, and the header as it was but for `filesize`, which
-- is left converted as if it had come from the network.
pub output_file_lem :
    (e : Endian) (f : File) (db : Db)
    → IsValid db
    → output_file e (some f) db
      ≡ some (record {
        db = record { header = left_header e db.header; employees = db.employees };
        fd = some (record {
          bytes = put_over (file_image db.employees) f.bytes;
          pos = length (file_image db.employees);
        });
      })
unfolding output_file file_image
output_file_lem e f db v = rw (
  header_restored_lem e _ db.header v.magic v.version v.count_fits,
  store_header-net e db.header _ v.magic v.version v.counted,
  write_employees_lem e _ db.employees _ v.records v.counted,
  write_file-write_file,
  write_file-rewind,
)
