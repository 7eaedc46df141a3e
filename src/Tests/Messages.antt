-- ===== src/Tests/Messages.antt =====
-- The theorems about the server's handler and the client, at concrete inputs.
use lowlevel_academy.Prelude.{
  ℕ, ◌≡◌, ◌≢◌, refl, List, [], ◌∷◌, ◌++◌, none, some, arith, replicate, drop, true,
}
use lowlevel_academy.Host.{little, big}
use lowlevel_academy.Cstring.{c_string}
use lowlevel_academy.Protocol.Frame.{frame}
use lowlevel_academy.Server.{state_hello, state_msg}
use lowlevel_academy.Server.Fsm.{Handled, handle_client_fsm}
use lowlevel_academy.Server.Fsm.Hello.{Hello, hello_bytes, hello_buffer, handle_hello_lem}
use lowlevel_academy.Server.Fsm.Listing.{handle_list_lem}
use lowlevel_academy.Server.Fsm.Steps.{Moves, Untouched, handle_client_fsm-Untouched}
use lowlevel_academy.Server.Fsm.Total.{Good, handle_client_fsm_total}
use lowlevel_academy.Tests.Samples.{no_employees, no_employees-IsValid, empty_file, client_in}

has_nul : c_string (drop 8 (replicate 4096 0)) ≢ none
unfolding c_string
has_nul = λ q. cc

handle_client_fsm_total_example :
    (r : Handled) × (handle_client_fsm little true no_employees
        (some empty_file)
        (client_in state_msg)
      ≡ some r)
    × Good no_employees empty_file (client_in state_msg) r
handle_client_fsm_total_example =
    handle_client_fsm_total little no_employees empty_file (client_in state_msg)
      no_employees-IsValid (omega arith) (omega arith) refl has_nul

abbrev bad_hello : Hello
bad_hello = record { type = 1; length = 1; pad = 0; pad' = 0; proto = 99; behind = [] }

handle_hello_lem_example :
    handle_client_fsm little true no_employees none
      (record { fd = some 7; state = state_hello; buffer = hello_bytes bad_hello })
    ≡ some (record {
      db = no_employees;
      disk = none;
      client = record { fd = some 7; state = state_hello; buffer = hello_buffer little bad_hello };
      sent = frame big 0 0 (0 ∷ 0 ∷ []) ∷ [];
    })
handle_hello_lem_example =
    handle_hello_lem little true no_employees none (some 7) bad_hello (omega arith)

hello_not_msg : state_hello ≢ state_msg
hello_not_msg = λ q. cc

handle_client_fsm-Untouched_example :
    (r : Handled) × (handle_client_fsm little true no_employees none (client_in state_hello)
      ≡ some r)
    × Untouched no_employees none r
    × Moves (client_in state_hello) r
handle_client_fsm-Untouched_example =
    handle_client_fsm-Untouched little true no_employees none (client_in state_hello) hello_not_msg

handle_list_lem_example :
    (rest : List ℕ) × (handle_client_fsm big true no_employees none (record {
      fd = some 7;
      state = state_msg;
      buffer = frame big 3 0 (0 ∷ 0 ∷ replicate 516 0 ++ []);
    })
      ≡ some (record {
        db = no_employees;
        disk = none;
        client = record { fd = some 7; state = state_msg; buffer = rest };
        sent = frame big 4 0 (0 ∷ 0 ∷ []) ∷ [];
      }))
handle_list_lem_example =
    handle_list_lem big true no_employees none (some 7) 0 0 0 (replicate 516 0) [] (omega arith)
      refl refl
