-- ===== src/Server/Startup/Restart.antt =====
-- What a server finds when it is started on a file.
use lowlevel_academy.Prelude.{
  [], ◌∷◌, List, ℕ, sym, drop, ℕ, ◌+◌, ◌*◌, ◌≡◌, ◌≤◌, ◌↔◌, refl, true, false, [], none, some,
  length, arith, Bool-cases, inl, inr, ◌==◌,
}
use lowlevel_academy.Memory.Bytes.{AllBytes, drop-AllBytes}
use lowlevel_academy.Host.{Endian, little, big, load16, load32, ntohl, ntohs, htonl, htons}
use lowlevel_academy.Database.{Header, File, header_magic, read_data, read_file, load_header}
use lowlevel_academy.Database.Add.{Db}
use lowlevel_academy.Database.Load.{
  create_db_header, header_to_host, check_header, validate_db_header, read_employees,
}
use lowlevel_academy.Database.Load.Reopen.{
  header_of, validate_db_header-image, read_employees-image,
}
use lowlevel_academy.Database.Save.{output_file}
use lowlevel_academy.Database.Save.Image.{left_header}
use lowlevel_academy.Database.Format.{IsValid}
use lowlevel_academy.Server.Files.{absent, regular, create_db_file, open_db_file}
use lowlevel_academy.Server.Fsm.Total.{stored, output_file-stored}
use lowlevel_academy.Server.Startup.{Memory, open_database}

abbrev pub memory : Memory
memory = record { for_header = true; for_employees = true }

-- A database that was written on one host, over a file no longer than its image, is what a server
-- that is started on that file on any host finds: the same employees, under a header that describes
-- the file.
pub restart_lem :
    (writer reader : Endian) (f : File) (db : Db)
    → IsValid db
    → length f.bytes ≤ 12 + 516 * length db.employees
    → (g : File) × (output_file writer (some f) db
        ≡ some (record {
          db = record { header = left_header writer db.header; employees = db.employees };
          fd = some g;
        }))
      × (open_database reader memory false (regular g.bytes)
          ≡ some (
            record { header = header_of (length db.employees); employees = db.employees },
            some g,
          ))
unfolding open_database open_db_file
restart_lem writer reader f db v fits = (
  stored db.employees,
  output_file-stored writer f db v fits,
  rw (
    validate_db_header-image reader db.employees v.records (omega (arith, v.counted)),
    read_employees-image reader db.employees v.records,
  ),
)

check_header_iff :
    (n : ℕ) (g h : Header)
    → (check_header n g ≡ some h)
      ↔ ((g ≡ h) × (h.version ≡ 1) × (h.magic ≡ header_magic) × (h.filesize ≡ n))
unfolding check_header
check_header_iff n g h = (λ p. ground arith, λ p. ground arith)

-- The header that twelve bytes hold in network order: magic, version, count and size of the file.
abbrev pub header_at : List ℕ → Header
header_at bs = record {
  magic = load32 big bs;
  version = load16 big (drop 4 bs);
  count = load16 big (drop 6 bs);
  filesize = load32 big (drop 8 bs);
}

ntohl-bytes : (e : Endian) (bs : List ℕ) → AllBytes bs → ntohl e (load32 e bs) ≡ load32 big bs
unfolding ntohl htonl load32
ntohl-bytes big [] v = refl
ntohl-bytes big (a ∷ []) v = refl
ntohl-bytes big (a ∷ b ∷ []) v = refl
ntohl-bytes big (a ∷ b ∷ c ∷ []) v = refl
ntohl-bytes big (a ∷ b ∷ c ∷ d ∷ bs) (va, (vb, (vc, (vd, v)))) = omega (arith, va, vb, vc, vd)
ntohl-bytes little [] v = refl
ntohl-bytes little (a ∷ []) v = refl
ntohl-bytes little (a ∷ b ∷ []) v = refl
ntohl-bytes little (a ∷ b ∷ c ∷ []) v = refl
ntohl-bytes little (a ∷ b ∷ c ∷ d ∷ bs) (va, (vb, (vc, (vd, v)))) = omega (arith, va, vb, vc, vd)

ntohs-bytes : (e : Endian) (bs : List ℕ) → AllBytes bs → ntohs e (load16 e bs) ≡ load16 big bs
unfolding ntohs htons load16
ntohs-bytes big [] v = refl
ntohs-bytes big (a ∷ []) v = refl
ntohs-bytes big (a ∷ b ∷ bs) (va, (vb, v)) = omega (arith, va, vb)
ntohs-bytes little [] v = refl
ntohs-bytes little (a ∷ []) v = refl
ntohs-bytes little (a ∷ b ∷ bs) (va, (vb, v)) = omega (arith, va, vb)

header_to_host-bytes :
    (e : Endian) (bs : List ℕ) → AllBytes bs → header_to_host e (load_header e bs) ≡ header_at bs
unfolding header_to_host load_header
header_to_host-bytes e bs v =
    rw
      (
        ntohl-bytes e bs v,
        ntohs-bytes e (drop 4 bs) (drop-AllBytes 4 bs v),
        ntohs-bytes e (drop 6 bs) (drop-AllBytes 6 bs v),
        ntohl-bytes e (drop 8 bs) (drop-AllBytes 8 bs v),
      )
      refl

-- For a file of bytes, on any host: `validate_db_header` accepts it exactly when 12 bytes can be read,
-- and in them stand, in network order, the magic number, version 1, a count, and the size of the file;
-- the header with these numbers is what it returns.
pub validate_db_header_iff :
    (e : Endian) (f : File) (h : Header)
    → AllBytes (read_data 12 f)
    → ((validate_db_header e true (some f)).0 ≡ some h) ↔ (
        (length (read_data 12 f) ≡ 12)
        × (h ≡ header_at (read_data 12 f))
        × (h.version ≡ 1)
        × (h.magic ≡ header_magic)
        × (h.filesize ≡ length f.bytes))
unfolding validate_db_header
validate_db_header_iff e f h v =
    let g : Header = header_at (read_data 12 f) in
    let host = header_to_host-bytes e (read_data 12 f) v in
    elim (Bool-cases (length (read_data 12 f) == 12)) [
      | inl p ↦
          rw (p, host)
            (
              λ q.
                  let r = (check_header_iff (length f.bytes) g h).0 q in
                  (ground arith, sym r.0, r.1, r.2, r.3),
              λ q. (check_header_iff (length f.bytes) g h).1 (sym q.1, q.2, q.3, q.4),
            )
      | inr p ↦ (λ q. ground arith, λ q. ground arith)
    ]

-- A new database is not written before an employee is added: until then the file is empty, and a
-- server that is started on it refuses it.
pub new_file_refused :
    (e : Endian)
    → (db : Db) × (f : File) × (open_database e memory true (absent true) ≡ some (db, some f))
      × (open_database e memory false (regular f.bytes) ≡ none)
unfolding open_database create_db_file open_db_file create_db_header validate_db_header
    read_employees read_data read_file
new_file_refused e =
    (record { header = header_of 0; employees = [] }, record { bytes = []; pos = 0 }, refl, refl)
