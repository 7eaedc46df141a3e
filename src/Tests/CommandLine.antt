-- ===== src/Tests/CommandLine.antt =====
-- The theorems about the command line program, at concrete inputs.
use lowlevel_academy.Prelude.{◌≡◌, refl, [], ◌∷◌, some, arith, length}
use lowlevel_academy.Host.{little, big}
use lowlevel_academy.Memory.{put_over}
use lowlevel_academy.Database.Add.{new_employee}
use lowlevel_academy.Database.Add.Text.{joined}
use lowlevel_academy.Database.Format.{file_image}
use lowlevel_academy.Database.Load.Reopen.{header_of}
use lowlevel_academy.Server.Files.{regular}
use lowlevel_academy.Cli.Edit.{in_place, failed}
use lowlevel_academy.Cli.Edit.Adding.{AreParts}
use lowlevel_academy.Database.Person.{recorded}
use lowlevel_academy.Cli.Edit.Listing.{lines_from}
use lowlevel_academy.Cli.Save.{header_to_net, output_file}
use lowlevel_academy.Cli.Save.Image.{output_file_net}
use lowlevel_academy.Cli.Run.{opt_f, opt_l, opt_a, main}
use lowlevel_academy.Cli.Run.Session.{heap, ends, add_session, list_session}
use lowlevel_academy.Tests.Samples.{
  person, person-ArePersons, no_employees-IsValid, empty_file, parts,
}

parts-AreParts : AreParts parts
parts-AreParts = record {
  name_part = omega arith;
  address_part = omega arith;
  hours_part = omega arith;
}

output_file_net_example :
    output_file little (some empty_file) (record { header = header_of 0; array = some [] })
    ≡ some (record {
      header = header_to_net little 12 (header_of 0);
      left = [];
      fd = some (record { bytes = put_over (file_image []) []; pos = length (file_image []) });
    })
output_file_net_example = output_file_net little empty_file (header_of 0) [] no_employees-IsValid

add_session_example :
    main little
      (heap in_place)
      (λ path. regular (file_image []))
      (opt_f (b'f' ∷ []) ∷ opt_a (joined parts) ∷ [])
    ≡ some (ends [] (new_employee (b'A' ∷ []) (b'B' ∷ []) (b'7' ∷ []) ∷ []))
add_session_example =
    add_session little (λ path. regular (file_image [])) (b'f' ∷ []) [] parts refl tt (omega arith)
      parts-AreParts

list_session_example :
    main big
      (heap failed)
      (λ path. regular (file_image (recorded person ∷ [])))
      (opt_f (b'f' ∷ []) ∷ opt_l ∷ [])
    ≡ some (ends (lines_from 0 (person ∷ [])) (recorded person ∷ []))
list_session_example =
    list_session big failed (λ path. regular (file_image (recorded person ∷ []))) (b'f' ∷ [])
      (person ∷ []) refl person-ArePersons (omega arith)
