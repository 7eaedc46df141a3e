-- ===== src/Client/Run/Session.antt =====
-- A whole run of the client against a server.
use lowlevel_academy.Prelude.{ℕ, ◌≡◌, refl, true, List, Option}
use lowlevel_academy.Host.{Endian}
use lowlevel_academy.Memory.{write_bytes}
use lowlevel_academy.Cstring.{atoi}
use lowlevel_academy.Database.Add.{new_employee}
use lowlevel_academy.Database.Add.Text.{Parts}
use lowlevel_academy.Database.Person.{Person, recorded}
use lowlevel_academy.Server.Fsm.{Handled, handle_client_fsm}
use lowlevel_academy.Client.{next_chunk}
use lowlevel_academy.Client.Run.{Net}

-- The server reads a message into the slot and handles it.
abbrev pub handle_read : Endian → List ℕ → Handled → Option Handled
handle_read e bytes r =
    handle_client_fsm e true r.db r.disk
      (record r.client { buffer = write_bytes 0 bytes r.client.buffer })

-- What a new employee is to a user.
abbrev pub person_of : Parts → Person
person_of t = record { name = t.name; address = t.address; hours = atoi t.hours }

recorded-person_of : (t : Parts) → recorded (person_of t) ≡ new_employee t.name t.address t.hours
unfolding new_employee
recorded-person_of t = refl

-- The answers that the server gives to the three requests.
abbrev pub answers : Handled → Handled → Handled → Net
answers r1 r2 r3 = record {
  opened = true;
  connected = true;
  hello_answer = next_chunk r1.sent;
  add_answer = next_chunk r2.sent;
  list_answers = r3.sent;
}
