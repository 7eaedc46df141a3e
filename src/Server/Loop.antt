-- ===== src/Server/Loop.antt =====
-- One round of `poll_loop` of src/server/main.c: the descriptors are listed, `poll` reports events,
-- a new client is accepted, and the clients with data are served.
use lowlevel_academy.Prelude.{
  ℕ, zero, suc, ◌+◌, ◌-◌, Bool, true, false, List, [], ◌∷◌, ◌++◌, Option, none, some, ltb, leb,
  ◌==◌, ◌&&◌, if◌then◌else◌, set, get_elem?, replicate,
}
use lowlevel_academy.Host.{Endian}
use lowlevel_academy.Memory.{write_bytes}
use lowlevel_academy.Cstring.{c_string}
use lowlevel_academy.Database.{Fd}
use lowlevel_academy.Database.Add.{Db}
use lowlevel_academy.Protocol.{buff_size}
use lowlevel_academy.Server.{max_clients, State, state_disconnected, state_hello, ClientState}
use lowlevel_academy.Server.Slots.{init_clients, find_free_slot, find_slot_by_fd}
use lowlevel_academy.Server.Fsm.{Handled, handle_client_fsm}
pub mod Counting
pub mod Table
pub mod Ready
pub mod Sound
pub mod Total
pub mod Serving
pub mod Change
pub mod Walk
pub mod Life
pub mod Bag
pub mod Clients
pub mod Quiet
pub mod Stale

-- `revents`: POLLIN, and whether any of POLLERR, POLLHUP and POLLNVAL is set, which `poll` reports
-- unasked.
pub record Revents : Type 0 where
  pub pollin : Bool
  pub error : Bool

abbrev pub no_revents : Revents
no_revents = record { pollin = false; error = false }

-- `struct pollfd`: the descriptor, and what `poll` reported of it.
pub record PollFd : Type 0 where
  pub fd : Option ℕ
  pub revents : Revents

-- The loop's variables. `closed` and `sent` record the calls of `close` and the replies.
pub record Loop : Type 0 where
  pub clients : List ClientState
  pub nfds : ℕ
  pub db : Db
  pub disk : Fd
  pub closed : List (Option ℕ)
  pub sent : List (List ℕ)

-- `fds[fdsI].fd = client_states[i].fd` for the slots in use: the entries from `fdsI` on. What is not
-- reached keeps its descriptor, and no `revents` is changed.
unfoldable pub list_fds : List ClientState → List PollFd → List PollFd
list_fds [] fds = fds
list_fds (c ∷ cs) [] = []
list_fds (c ∷ cs) (p ∷ fds) =
    let used = record p { fd = c.fd } ∷ list_fds cs fds in
    let free = list_fds cs (p ∷ fds) in elim c.fd [ none ↦ free | some d ↦ used ]

unfoldable pub take_slot : ℕ → ClientState → ClientState
take_slot d c = record c { fd = some d; state = state_hello }

unfoldable pub update_slot : ℕ → (ClientState → ClientState) → List ClientState → List ClientState
update_slot i g [] = []
update_slot zero g (c ∷ cs) = g c ∷ cs
update_slot (suc i) g (c ∷ cs) = c ∷ update_slot i g cs

-- A connection that `accept` returned: it takes the first free slot, or is closed.
unfoldable pub place_client : ℕ → Option ℕ → Loop → Loop
unfolding take_slot update_slot
place_client d none l = record l { closed = some d ∷ l.closed }
place_client d (some i) l = record l {
  clients = update_slot i (take_slot d) l.clients;
  nfds = l.nfds + 1;
}

unfoldable pub accept_client : ℕ → Loop → Loop
unfolding place_client
accept_client d l = place_client d (find_free_slot l.clients) l

unfoldable pub drop_slot : ClientState → ClientState
drop_slot c = record { fd = none; state = state_disconnected; buffer = replicate buff_size 0 }

-- `read` returned 0 or -1.
unfoldable pub drop_client : Option ℕ → ℕ → Loop → Loop
unfolding update_slot
drop_client fd slot l = record l {
  clients = update_slot slot drop_slot l.clients;
  nfds = l.nfds - 1;
  closed = fd ∷ l.closed;
}

unfoldable pub finish_message : ℕ → Loop → Option Handled → Option Loop
unfolding update_slot
finish_message slot l none = none
finish_message slot l (some r) = some (record l {
  clients = update_slot slot (λ _. r.client) l.clients;
  db = r.db;
  disk = r.disk;
  sent = l.sent ++ r.sent;
})

-- The buffer is printed as a string first: `none` if it holds no NUL.
unfoldable pub printed : Option (List ℕ × List ℕ) → Option Loop → Option Loop
printed none o = none
printed (some t) o = o

-- Data of a client, put over the front of its buffer.
unfoldable pub serve_message :
    Endian → (reallocated : Bool) → List ℕ → ℕ → Option ClientState → Loop → Option Loop
unfolding finish_message printed
serve_message e b bytes slot none l = none
serve_message e b bytes slot (some c) l =
    let buffer = write_bytes 0 bytes c.buffer in
    printed (c_string buffer)
      (finish_message slot l (handle_client_fsm e b l.db l.disk (record c { buffer = buffer })))

-- What `read` returns for a client: nothing when it failed or the client has closed.
unfoldable pub serve_client :
    Endian → (reallocated : Bool) → List ℕ → Option ℕ → Option ℕ → Loop → Option Loop
unfolding drop_client serve_message
serve_client e b bytes fd none l = none
serve_client e b [] fd (some slot) l = some (drop_client fd slot l)
serve_client e b (x ∷ bytes) fd (some slot) l =
    serve_message e b (x ∷ bytes) slot (get_elem? l.clients slot) l

unfoldable pub next_events : (Loop → Option Loop) → Option Loop → Option Loop
next_events k none = none
next_events k (some l) = k l

-- The loop `for (i = 1; i <= nfds && n_events > 0; i++)`, over the entries from `i` on; `reads` is
-- what each descriptor has to read. `none` is a fault: an entry behind the array, a descriptor that
-- no slot has (the code indexes slot -1), or a fault of the handler.
unfoldable pub serve_events :
    Endian
    → (reallocated : Bool) → (reads : Option ℕ → List ℕ) → List PollFd
    → ℕ
    → ℕ
    → Loop
    → Option Loop
serve_events e b reads [] i n_events l = if leb i l.nfds && ltb 0 n_events then none else some l
serve_events e b reads (p ∷ fds) i n_events l =
    let skip = serve_events e b reads fds (i + 1) n_events l in
    let served =
      next_events (serve_events e b reads fds (i + 1) (n_events - 1))
        (serve_client e b (reads p.fd) p.fd (find_slot_by_fd l.clients p.fd) l) in
    if leb i l.nfds && ltb 0 n_events then (if p.revents.pollin then served else skip) else some l

-- The events of a round: what `accept` returned if the listening socket had POLLIN (`none`: it had
-- not, `some none`: `accept` failed), whether that socket had an error, the events of the other
-- descriptors, and the number that `poll` returned.
pub record Events : Type 0 where
  pub accepted : Option (Option ℕ)
  pub listener_error : Bool
  pub revents : List Revents
  pub n_events : ℕ

-- `poll` writes `revents` of the first `nfds - 1` entries behind the listening socket.
unfoldable pub poll_fds : List Revents → List PollFd → List PollFd
poll_fds [] fds = fds
poll_fds (b ∷ bs) [] = []
poll_fds (b ∷ bs) (p ∷ fds) = record p { revents = b } ∷ poll_fds bs fds

unfoldable pub serve_round :
    Endian
    → (reallocated : Bool) → (reads : Option ℕ → List ℕ) → List PollFd
    → ℕ
    → Option (Option ℕ)
    → Loop
    → Option Loop
unfolding accept_client
serve_round e b reads fds n_events none l = serve_events e b reads fds 1 n_events l
serve_round e b reads fds n_events (some none) l = some l
serve_round e b reads fds n_events (some (some d)) l =
    serve_events e b reads fds 1 (n_events - 1) (accept_client d l)

-- One round; `fds` are the entries behind that of the listening socket.
unfoldable pub round :
    Endian
    → (reallocated : Bool) → (reads : Option ℕ → List ℕ) → Events
    → List PollFd
    → Loop
    → Option Loop
unfolding serve_round list_fds poll_fds
round e b reads ev fds l =
    serve_round e b reads (poll_fds ev.revents (list_fds l.clients fds)) ev.n_events ev.accepted l

-- The loop as it is entered: the table is initialised, and only the listening socket is polled.
unfoldable pub start_loop : List ClientState → Db → Fd → Loop
start_loop cs db disk = record {
  clients = init_clients cs;
  nfds = 1;
  db = db;
  disk = disk;
  closed = [];
  sent = [];
}

-- Whether `socket`, `setsockopt`, `bind` and `listen` succeed.
pub record Sockets : Type 0 where
  pub opened : Bool
  pub reusable : Bool
  pub bound : Bool
  pub listening : Bool

-- `none` is exit(EXIT_FAILURE).
unfoldable pub enter_loop : Sockets → List ClientState → Db → Fd → Option Loop
unfolding start_loop
enter_loop s cs db disk =
    if s.opened && s.reusable && s.bound && s.listening then some (start_loop cs db disk) else none

-- The entries behind that of the listening socket, as the loop is entered: zeroed.
unfoldable pub start_fds : List PollFd
start_fds = replicate max_clients (record { fd = some 0; revents = no_revents })

-- What a round leaves in them.
unfoldable pub next_fds : Events → List PollFd → Loop → List PollFd
unfolding list_fds poll_fds
next_fds ev fds l = poll_fds ev.revents (list_fds l.clients fds)
