-- ===== src/Cli/Save.antt =====
-- `output_file` of the command line program's parse.c, which leaves the header and the hours in
-- network order.
use lowlevel_academy.Prelude.{ℕ, zero, suc, ◌+◌, ◌*◌, List, [], ◌∷◌, Option, none, some}
use lowlevel_academy.Host.{Endian, htons, htonl}
use lowlevel_academy.Database.{
  Header, Employee, header_size, employee_size, store_header, store_employee, Fd, File, write_file,
  rewind,
}
use lowlevel_academy.Cli.{Base}
use lowlevel_academy.Cli.Edit.{elements}
pub mod Image

unfoldable pub header_to_net : Endian → ℕ → Header → Header
header_to_net e new_filesize h = record {
  version = htons e h.version;
  count = htons e h.count;
  magic = htonl e h.magic;
  filesize = htonl e new_filesize;
}

unfoldable pub hours_to_net : Endian → Employee → Employee
hours_to_net e x = record x { hours = htonl e x.hours }

-- The loop over `employees[i]`, for the rounds that are left: the array and the file afterwards.
-- `none` is an access behind the array, or through NULL.
unfoldable pub written : Employee → Option (List Employee × File) → Option (List Employee × File)
written x none = none
written x (some (es, f)) = some (x ∷ es, f)

unfoldable pub write_employees : Endian → ℕ → List Employee → File → Option (List Employee × File)
unfolding written hours_to_net
write_employees e zero es f = some (es, f)
write_employees e (suc n) [] f = none
write_employees e (suc n) (x ∷ es) f =
    written (hours_to_net e x)
      (write_employees e n es (write_file (store_employee e (hours_to_net e x)) f))

pub record Saved : Type 0 where
  pub header : Header
  pub left : List Employee
  pub fd : Fd

unfoldable pub saved : Header → Option (List Employee × File) → Option Saved
saved h none = none
saved h (some (es, f)) = some (record { header = h; left = es; fd = some f })

unfoldable pub output_file : Endian → Fd → Base → Option Saved
unfolding saved write_employees header_to_net
output_file e none b = some (record { header = b.header; left = elements b.array; fd = none })
output_file e (some f) b =
    let h = header_to_net e (header_size + employee_size * b.header.count) b.header in
    saved h (
      write_employees e b.header.count (elements b.array)
        (write_file (store_header e h) (rewind f)))
