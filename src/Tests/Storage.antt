-- ===== src/Tests/Storage.antt =====
-- The theorems about files and databases, at concrete inputs.
use lowlevel_academy.Prelude.{◌∷◌, inr, ◌≡◌, ◌↔◌, refl, [], none, some, arith, length, true, false}
use lowlevel_academy.Host.{little, big}
use lowlevel_academy.Memory.{put_over}
use lowlevel_academy.Database.{File, header_magic, read_data}
use lowlevel_academy.Database.Add.{Added, add_employee}
use lowlevel_academy.Database.Add.Parts.{parts_of, Answers, add_employee-Answers}
use lowlevel_academy.Database.Add.Text.{joined, add_employee_faults}
use lowlevel_academy.Database.Format.{file_image}
use lowlevel_academy.Database.Load.{validate_db_header}
use lowlevel_academy.Database.Load.Reopen.{header_of}
use lowlevel_academy.Database.Save.{output_file}
use lowlevel_academy.Database.Save.Image.{left_header, output_file_lem}
use lowlevel_academy.Memory.Bytes.{AllBytes}
use lowlevel_academy.Server.Files.{regular}
use lowlevel_academy.Server.Startup.{open_database}
use lowlevel_academy.Server.Startup.Restart.{header_at, memory, restart_lem, validate_db_header_iff}
use lowlevel_academy.Tests.Samples.{
  no_employees, no_employees-IsValid, empty_file, parts, parts-IsParts,
}

output_file_lem_example :
    output_file little (some empty_file) no_employees
    ≡ some (record {
      db = record { header = left_header little (header_of 0); employees = [] };
      fd = some (record { bytes = put_over (file_image []) []; pos = length (file_image []) });
    })
output_file_lem_example = output_file_lem little empty_file no_employees no_employees-IsValid

restart_lem_example :
    (g : File) × (output_file little (some empty_file) no_employees
      ≡ some (record {
        db = record { header = left_header little (header_of 0); employees = [] };
        fd = some g;
      }))
    × (open_database big memory false (regular g.bytes)
        ≡ some (record { header = header_of 0; employees = [] }, some g))
restart_lem_example =
    restart_lem little big empty_file no_employees no_employees-IsValid (omega arith)

add_employee-Answers_example :
    (r : Added) × (add_employee true no_employees (joined parts) ≡ some r)
    × Answers no_employees (joined parts) (parts_of (joined parts)) r
add_employee-Answers_example = add_employee-Answers no_employees (joined parts) refl (omega arith)

add_employee_faults_example :
    add_employee true (record { header = header_of 65535; employees = [] }) (joined parts) ≡ none
add_employee_faults_example =
    add_employee_faults true (record { header = header_of 65535; employees = [] }) parts
      parts-IsParts (inr refl)

-- The file of an empty database.
abbrev header_file : File
header_file = record { bytes = 76 ∷ 76 ∷ 65 ∷ 68 ∷ 0 ∷ 1 ∷ 0 ∷ 0 ∷ 0 ∷ 0 ∷ 0 ∷ 12 ∷ []; pos = 0 }

header_file-AllBytes : AllBytes (read_data 12 header_file)
unfolding read_data
header_file-AllBytes = omega arith

validate_db_header_iff_example :
    ((validate_db_header little true (some header_file)).0 ≡ some (header_of 0)) ↔ (
      (length (read_data 12 header_file) ≡ 12)
      × (header_of 0 ≡ header_at (read_data 12 header_file))
      × ((header_of 0).version ≡ 1)
      × ((header_of 0).magic ≡ header_magic)
      × ((header_of 0).filesize ≡ length header_file.bytes))
validate_db_header_iff_example =
    validate_db_header_iff little header_file (header_of 0) header_file-AllBytes
