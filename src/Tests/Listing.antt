-- ===== src/Tests/Listing.antt =====
-- The theorem about the client's list request, at a database of one employee.
use lowlevel_academy.Prelude.{
  ℕ, ◌≡◌, refl, true, List, [], ◌∷◌, none, some, arith, replicate, length-replicate,
}
use lowlevel_academy.Host.{little, big}
use lowlevel_academy.Memory.{write_bytes}
use lowlevel_academy.Database.Add.{Db}
use lowlevel_academy.Database.Load.Reopen.{header_of}
use lowlevel_academy.Database.Person.{recorded}
use lowlevel_academy.Server.{state_msg}
use lowlevel_academy.Server.Fsm.{handle_client_fsm}
use lowlevel_academy.Client.{list_sent, list_employees}
use lowlevel_academy.Client.Listing.{list_employees_lem}
use lowlevel_academy.Client.Listing.Rows.{row}
use lowlevel_academy.Tests.Samples.{person, person-ArePersons}

abbrev one_employee : Db
one_employee = record { header = header_of 1; employees = recorded person ∷ [] }

abbrev nul : ℕ
nul = 0

list_employees_lem_example :
    (rest : List ℕ) × (sent : List (List ℕ)) × (handle_client_fsm big true one_employee none
        (record {
          fd = some 7;
          state = state_msg;
          buffer = write_bytes 0 (list_sent little) (replicate 4096 nul);
        })
      ≡ some (record {
        db = one_employee;
        disk = none;
        client = record { fd = some 7; state = state_msg; buffer = rest };
        sent = sent;
      }))
    × (list_employees little sent ≡ (list_sent little, some (row person ∷ [])))
list_employees_lem_example =
    list_employees_lem little big true one_employee none (some 7) (person ∷ []) (replicate 4096 nul)
      refl refl (omega arith) person-ArePersons (length-replicate 4096 nul)
