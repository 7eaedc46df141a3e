-- ===== src/Tests/Rounds.antt =====
-- The theorems about the client table and the loop, at concrete inputs.
use lowlevel_academy.Prelude.{
  inr, arith, get_elem?, ℕ, inl, length, ◌≡◌, refl, List, [], ◌∷◌, Option, none, some, true, false,
}
use lowlevel_academy.Host.{little}
use lowlevel_academy.Server.{state_new, state_hello, ClientState}
use lowlevel_academy.Server.Slots.{find_slot_by_fd, find_free_slot, find_from, same_fd}
use lowlevel_academy.Server.Loop.Table.{Has}
use lowlevel_academy.Server.Loop.{
  list_fds, poll_fds, next_fds, next_events, drop_client, update_slot, drop_slot, no_revents,
  accept_client, serve_client, serve_round, PollFd, Loop, Events, round, serve_events,
}
use lowlevel_academy.Server.Loop.Counting.{used}
use lowlevel_academy.Server.Loop.Bag.{insert}
use lowlevel_academy.Server.Loop.Clients.{clients_of, bounded_insert, clients_lem}
use lowlevel_academy.Server.Loop.Total.{IsPolled}
use lowlevel_academy.Server.Loop.Quiet.{quiet_lem}
use lowlevel_academy.Server.Loop.Stale.{stale_faults}
use lowlevel_academy.Tests.Samples.{no_employees}

abbrev slot : Option ℕ → ClientState
slot fd = record { fd = fd; state = state_new; buffer = [] }

abbrev table : List ClientState
table = slot (some 5) ∷ slot none ∷ slot none ∷ []

find_free_slot_second : find_free_slot table ≡ some 1
unfolding find_free_slot find_from same_fd
find_free_slot_second = refl

abbrev before : Loop
before = record {
  clients = table;
  nfds = 2;
  db = no_employees;
  disk = none;
  closed = [];
  sent = [];
}

-- The table after descriptor 9 was accepted.
abbrev after : Loop
after = record before {
  clients =
      slot (some 5) ∷ record { fd = some 9; state = state_hello; buffer = [] } ∷ slot none ∷ [];
  nfds = 3;
}

abbrev fds : List PollFd
fds =
    record { fd = some 0; revents = no_revents } ∷ record { fd = some 0; revents = no_revents } ∷ []

abbrev accepted_nine : Events
accepted_nine = record {
  accepted = some (some 9);
  listener_error = false;
  revents = no_revents ∷ [];
  n_events = 1;
}

accept_nine : round little true (λ _. []) accepted_nine fds before ≡ some after
unfolding round serve_round serve_events find_free_slot find_from same_fd
accept_nine = refl

-- Descriptor 9 is accepted, and the client on descriptor 5 has closed its connection.
clients_lem_example :
    (clients_of (accept_client 9 before)
      ≡ bounded_insert (used table) (length table) 9 (clients_of before))
    × ((l' : Loop) × (serve_client little true [] (some 5) (find_slot_by_fd table (some 5)) before
          ≡ some l')
        × (insert 5 (clients_of l') ≡ clients_of before))
clients_lem_example = clients_lem little true 9 5 before (inl refl)

accepted_nine-IsPolled : IsPolled accepted_nine before
accepted_nine-IsPolled = record {
  reported = refl;
  numbered = refl;
  fresh = λ d q h. elim h [ inl p ↦ ground arith | inr u ↦ ground arith ];
}

-- Descriptor 9 connects, and the client on descriptor 5 is quiet.
quiet_lem_example : get_elem? after.clients 0 ≡ some (slot (some 5))
quiet_lem_example =
    quiet_lem little true (λ _. []) accepted_nine fds before after 0 5 (slot (some 5)) refl refl
      refl (omega arith) accepted_nine-IsPolled
      (record { listener = λ q. refl; others = ((λ q. q), tt) }) ((λ q. cc), tt) accept_nine

-- Two clients, the second of which closes its connection.
abbrev two_clients : Loop
two_clients = record before { clients = slot (some 5) ∷ slot (some 7) ∷ slot none ∷ []; nfds = 3 }

abbrev leaving : Events
leaving = record {
  accepted = none;
  listener_error = false;
  revents = no_revents ∷ record { pollin = true; error = false } ∷ [];
  n_events = 1;
}

-- The state that this leaves, and the entries: that of descriptor 7 still has POLLIN.
abbrev one_left : Loop
one_left = record before {
  clients = slot (some 5) ∷ drop_slot (slot (some 7)) ∷ slot none ∷ [];
  closed = some 7 ∷ [];
}

abbrev quiet : PollFd
quiet = record { fd = some 5; revents = no_revents }

abbrev stale : PollFd
stale = record { fd = some 7; revents = record { pollin = true; error = false } }

client_leaves : round little true (λ _. []) leaving fds two_clients ≡ some one_left
unfolding round serve_round serve_events list_fds poll_fds serve_client drop_client update_slot
    drop_slot find_slot_by_fd find_from same_fd next_events
client_leaves = refl

stale_entry : next_fds leaving fds two_clients ≡ quiet ∷ stale ∷ []
unfolding next_fds list_fds poll_fds
stale_entry = refl

-- In the next round the other client has an error only.
abbrev error_only : Events
error_only = record {
  accepted = none;
  listener_error = false;
  revents = record { pollin = false; error = true } ∷ [];
  n_events = 1;
}

one_left_used : used one_left.clients ≡ 1
unfolding drop_slot
one_left_used = refl

error_only-IsPolled : IsPolled error_only one_left
error_only-IsPolled = record { reported = refl; numbered = refl; fresh = λ d q. cc }

seven_gone : ¬ Has 7 one_left.clients
unfolding drop_slot
seven_gone h = elim h [ inl p ↦ ground arith | inr u ↦ ground arith ]

stale_faults_example : round little true (λ _. []) error_only (quiet ∷ stale ∷ []) one_left ≡ none
unfolding drop_slot
stale_faults_example =
    stale_faults little true (λ _. []) error_only (quiet ∷ stale ∷ []) [] one_left stale 7 refl
      (omega arith) error_only-IsPolled refl refl (omega arith) refl refl refl seven_gone
