-- ===== src/Server/Fsm/Adding.antt =====
-- The reply to an add request.
use lowlevel_academy.Host.{Endian}
use lowlevel_academy.Database.Add.{Db, new_employee}
use lowlevel_academy.Database.Add.Outcome.{appended}
use lowlevel_academy.Database.Add.Text.{Parts}
use lowlevel_academy.Database.Save.Image.{left_header}

-- The database after the request: with one more employee, and the header as `output_file` leaves it.
abbrev pub with_added : Endian → Db → Parts → Db
with_added e db t =
    let d = appended db (new_employee t.name t.address t.hours) in
    record { header = left_header e d.header; employees = d.employees }
