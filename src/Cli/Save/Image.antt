-- ===== src/Cli/Save/Image.antt =====
-- What `output_file` of the command line program writes, and what it leaves.
use lowlevel_academy.Prelude.{
  ℕ, zero, suc, ◌+◌, ◌*◌, ◌≡◌, ap, List, [], ◌∷◌, map, some, arith, length,
}
use lowlevel_academy.Host.{Endian}
use lowlevel_academy.Memory.{put_over}
use lowlevel_academy.Database.{Header, Employee, File, write_file, store_header, store_employee}
use lowlevel_academy.Database.Save as Db
use lowlevel_academy.Database.Save.Image.{
  write_file-write_file, write_file-rewind, write_file-nil, store_employee-hours_to_net,
  store_header-net,
}
use lowlevel_academy.Database.Format.{
  employee_image, employees_image, header_image, file_image, IsValid,
}
use lowlevel_academy.Cli.Edit.{elements}
use lowlevel_academy.Cli.Save.{header_to_net, hours_to_net, write_employees, output_file}

store_employee-net :
    (e : Endian) (x : Employee) → store_employee e (hours_to_net e x) ≡ employee_image x
unfolding hours_to_net Db.hours_to_net
store_employee-net e x = store_employee-hours_to_net e x

store_header_net :
    (e : Endian) (h : Header) (n : ℕ)
    → h.magic ≡ 0x4c4c4144
    → h.version ≡ 1
    → h.count ≡ n
    → store_header e (header_to_net e (12 + 516 * h.count) h) ≡ header_image n
unfolding header_to_net Db.header_to_net
store_header_net e h n p q r = store_header-net e h n p q r

write_employees_lem :
    (e : Endian) (n : ℕ) (es : List Employee) (f : File)
    → n ≡ length es
    → write_employees e n es f ≡ some (map (hours_to_net e) es, write_file (employees_image es) f)
unfolding write_employees employees_image
write_employees_lem e zero [] f p = ap (λ g. some ([], g)) (write_file-nil f)
write_employees_lem e zero (x ∷ es) f p = absurd (omega arith)
write_employees_lem e (suc n) [] f p = absurd (omega arith)
write_employees_lem e (suc n) (x ∷ es) f p = rw (
  store_employee-net e x,
  write_employees_lem e n es (write_file (employee_image x) f) (omega arith),
  write_file-write_file,
)

-- On any host, `output_file` of a header and an array that fit writes the image of the employees
-- over the front of the file. The header and the hours are left as they were written, in network
-- order.
pub output_file_net :
    (e : Endian) (f : File) (h : Header) (es : List Employee)
    → IsValid (record { header = h; employees = es })
    → output_file e (some f) (record { header = h; array = some es })
      ≡ some (record {
        header = header_to_net e (12 + 516 * h.count) h;
        left = map (hours_to_net e) es;
        fd =
            some
              (record { bytes = put_over (file_image es) f.bytes; pos = length (file_image es) });
      })
unfolding output_file elements file_image
output_file_net e f h es v = rw (
  store_header_net e h (length es) v.magic v.version v.counted,
  write_employees_lem e _ es _ v.counted,
  write_file-write_file,
  write_file-rewind,
)
