-- ===== src/Database/Save.antt =====
-- `output_file` of parse.c.
use lowlevel_academy.Prelude.{ℕ, zero, suc, ◌+◌, ◌*◌, List, [], ◌∷◌, Option, none, some}
use lowlevel_academy.Host.{Endian, htons, htonl, ntohs, ntohl}
use lowlevel_academy.Database.{
  Header, Employee, header_size, employee_size, store_header, store_employee, Fd, File, write_file,
  rewind,
}
use lowlevel_academy.Database.Add.{Db}
pub mod Image

-- The header as it is written, and as it is left behind.
unfoldable pub header_to_net : Endian → ℕ → Header → Header
header_to_net e new_filesize h = record {
  version = htons e h.version;
  count = htons e h.count;
  magic = htonl e h.magic;
  filesize = htonl e new_filesize;
}

unfoldable pub header_restored : Endian → ℕ → Header → Header
header_restored e new_filesize h = record {
  version = ntohs e h.version;
  count = ntohs e h.count;
  magic = ntohl e h.magic;
  filesize = ntohl e new_filesize;
}

unfoldable pub hours_to_net : Endian → Employee → Employee
hours_to_net e x = record x { hours = htonl e x.hours }

unfoldable pub hours_restored : Endian → Employee → Employee
hours_restored e x = record x { hours = ntohl e x.hours }

pub record Written : Type 0 where
  pub left : List Employee
  pub file : File

unfoldable pub keep_employee : Employee → Option Written → Option Written
keep_employee x none = none
keep_employee x (some w) = some (record w { left = x ∷ w.left })

-- The loop over `employees[i]`, for the rounds that are left. `none` is a read behind the array.
unfoldable pub write_employees : Endian → ℕ → List Employee → File → Option Written
unfolding keep_employee hours_to_net hours_restored
write_employees e zero es f = some (record { left = es; file = f })
write_employees e (suc n) [] f = none
write_employees e (suc n) (x ∷ es) f =
    keep_employee (hours_restored e (hours_to_net e x))
      (write_employees e n es (write_file (store_employee e (hours_to_net e x)) f))

pub record Saved : Type 0 where
  pub db : Db
  pub fd : Fd

unfoldable pub finish_save : Header → Option Written → Option Saved
finish_save h none = none
finish_save h (some w) =
    some (record { db = record { header = h; employees = w.left }; fd = some w.file })

unfoldable pub save_as : Endian → ℕ → Db → File → Option Saved
unfolding finish_save write_employees header_to_net header_restored
save_as e new_filesize db f =
    finish_save (header_restored e new_filesize (header_to_net e new_filesize db.header)) (
      write_employees e db.header.count db.employees
        (write_file (store_header e (header_to_net e new_filesize db.header)) (rewind f)))

unfoldable pub output_file : Endian → Fd → Db → Option Saved
unfolding save_as
output_file e none db = some (record { db = db; fd = none })
output_file e (some f) db = save_as e (header_size + employee_size * db.header.count) db f
