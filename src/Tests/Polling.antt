-- ===== src/Tests/Polling.antt =====
-- The theorems about poll_multiplexing.c, at concrete inputs: descriptor 9 connects.
use lowlevel_academy.Prelude.{false, true, ℕ, ◌≡◌, refl, List, [], ◌∷◌, Option, none, some, arith}
use lowlevel_academy.Host.{little, big, store16, store32, htons, htonl}
use lowlevel_academy.Memory.{write_bytes}
use lowlevel_academy.Server.{state_new, ClientState}
use lowlevel_academy.Server.Slots.{fresh_client}
use lowlevel_academy.Server.Slots as Server
use lowlevel_academy.Server.Slots.Search.{IsFirst}
use lowlevel_academy.Server.Loop.{Sockets, Events}
use lowlevel_academy.Server.Loop.Table.{Has-fresh}
use lowlevel_academy.Poll.{
  enter_loop, start_fds, Loop, init_clients, start_loop, hello, find_free_slot, find_slot_by_fd,
  round,
}
use lowlevel_academy.Poll.Search.{searches_lem}
use lowlevel_academy.Poll.Running.{entered, poll_server_total}
use lowlevel_academy.Poll.Sound.{IsSound}
use lowlevel_academy.Poll.Total.{IsPolled}

-- The greeting is the same on both hosts.
hello_little : hello little ≡ 0 ∷ 0 ∷ 0 ∷ 0 ∷ 0 ∷ 4 ∷ 0 ∷ 0 ∷ 0 ∷ 0 ∷ 0 ∷ 1 ∷ []
unfolding hello write_bytes store16 store32 htons htonl
hello_little = refl

hello_big : hello big ≡ 0 ∷ 0 ∷ 0 ∷ 0 ∷ 0 ∷ 4 ∷ 0 ∷ 0 ∷ 0 ∷ 0 ∷ 0 ∷ 1 ∷ []
unfolding hello write_bytes store16 store32 htons htonl
hello_big = refl

abbrev slot : Option ℕ → ClientState
slot fd = record { fd = fd; state = state_new; buffer = [] }

abbrev table : List ClientState
table = slot (some 5) ∷ slot none ∷ []

searches_lem_example :
    IsFirst none 0 table (find_free_slot table)
    × IsFirst (some 5) 0 table (find_slot_by_fd table (some 5))
    × (Server.find_free_slot table ≡ find_free_slot table)
    × (Server.find_slot_by_fd table (some 5) ≡ find_slot_by_fd table (some 5))
searches_lem_example = searches_lem table (some 5)

abbrev connecting : Events
connecting = record { accepted = some (some 9); listener_error = false; revents = []; n_events = 1 }

connecting-IsPolled : IsPolled connecting start_loop
unfolding start_loop init_clients fresh_client
connecting-IsPolled = record { reported = refl; numbered = refl; fresh = λ d q. Has-fresh 256 d }

abbrev all_up : Sockets
all_up = record { opened = true; reusable = true; bound = true; listening = true }

start_loop_enter : enter_loop all_up ≡ some start_loop
unfolding enter_loop
start_loop_enter = refl

poll_server_total_example :
    (l' : Loop) × (round (λ fd. b'A' ∷ []) connecting start_fds start_loop ≡ some l') × IsSound l'
poll_server_total_example =
    poll_server_total (λ fd. b'A' ∷ []) connecting start_fds start_loop
      (entered all_up start_loop_enter) (λ fd. omega arith) connecting-IsPolled
      (record { listener = λ q. refl; others = tt })
