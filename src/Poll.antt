-- ===== src/Poll.antt =====
-- The server of 02-networking-code/04_advanced_techniques/poll_multiplexing.c, of which the database
-- server's loop is a later version. Its table has that server's struct, whose states are those of
-- this one and more, so the types of Server serve here too.
use lowlevel_academy.Prelude.{
  ℕ, zero, suc, ◌+◌, ◌-◌, Bool, true, false, List, [], ◌∷◌, Option, none, some, replicate, take,
  ltb, leb, ◌==◌, ◌&&◌, if◌then◌else◌, get_elem?,
}
use lowlevel_academy.Host.{Endian, store16, store32, htons, htonl}
use lowlevel_academy.Memory.{write_bytes}
use lowlevel_academy.Cstring.{c_string}
use lowlevel_academy.Server.{
  max_clients, state_new, state_connected, state_disconnected, ClientState,
}
use lowlevel_academy.Server.Slots.{same_fd}
use lowlevel_academy.Server.Loop.{
  no_revents, Sockets, PollFd, Events, list_fds, poll_fds, update_slot,
}
pub mod Search
pub mod Sound
pub mod Total
pub mod Running

abbrev pub buff_size : ℕ
buff_size = 4096

unfoldable pub init_clients : List ClientState
init_clients =
    replicate max_clients (record { fd = none; state = state_new; buffer = replicate buff_size 0 })

-- The loop of `find_free_slot`, from `i` on; `none` is -1.
unfoldable pub free_or : ℕ → Option ℕ → Option ℕ → Option ℕ
free_or i none rest = some i
free_or i (some d) rest = rest

unfoldable pub free_from : ℕ → List ClientState → Option ℕ
unfolding free_or
free_from i [] = none
free_from i (c ∷ cs) = free_or i c.fd (free_from (i + 1) cs)

unfoldable pub find_free_slot : List ClientState → Option ℕ
unfolding free_from
find_free_slot cs = free_from 0 cs

-- The loop of `find_slot_by_fd`, from `i` on.
unfoldable pub slot_from : Option ℕ → ℕ → List ClientState → Option ℕ
unfolding same_fd
slot_from fd i [] = none
slot_from fd i (c ∷ cs) =
    let rest = slot_from fd (i + 1) cs in if same_fd c.fd fd then some i else rest

unfoldable pub find_slot_by_fd : List ClientState → Option ℕ → Option ℕ
unfolding slot_from
find_slot_by_fd cs fd = slot_from fd 0 cs

-- What `handle_client` writes: PROTO_HELLO is 0, the length is 4, and the version is 1, behind a
-- header of an `int`, an `unsigned short` and two bytes of padding.
unfoldable pub hello : Endian → List ℕ
hello e =
    let typed = write_bytes 0 (store32 e (htonl e 0)) (replicate buff_size 0) in
    let sized = write_bytes 4 (store16 e (htons e 4)) typed in
    take (8 + 4) (write_bytes 8 (store32 e (htonl e 1)) sized)

-- The variables of the loop, and the descriptors that were closed, the last one first.
pub record Loop : Type 0 where
  pub clients : List ClientState
  pub nfds : ℕ
  pub closed : List (Option ℕ)

-- As the loop is entered.
unfoldable pub start_loop : Loop
start_loop = record { clients = init_clients; nfds = 1; closed = [] }

unfoldable pub take_slot : ℕ → ClientState → ClientState
take_slot d c = record c { fd = some d; state = state_connected }

unfoldable pub place_client : ℕ → Option ℕ → Loop → Loop
unfolding take_slot
place_client d none l = record l { closed = some d ∷ l.closed }
place_client d (some i) l = record l {
  clients = update_slot i (take_slot d) l.clients;
  nfds = l.nfds + 1;
}

unfoldable pub accept_client : ℕ → Loop → Loop
unfolding place_client
accept_client d l = place_client d (find_free_slot l.clients) l

unfoldable pub drop_slot : ClientState → ClientState
drop_slot c = record { fd = none; state = state_disconnected; buffer = replicate buff_size 0 }

-- `read` returned 0 or -1.
unfoldable pub drop_client : Option ℕ → ℕ → Loop → Loop
drop_client fd slot l = record l {
  clients = update_slot slot drop_slot l.clients;
  nfds = l.nfds - 1;
  closed = fd ∷ l.closed;
}

-- What was read is put over the front of the buffer, and printed up to its NUL: `none` if it has
-- none.
unfoldable pub put_text : List ℕ → ClientState → ClientState
put_text bytes c = record c { buffer = write_bytes 0 bytes c.buffer }

unfoldable pub printed : Option (List ℕ × List ℕ) → Loop → Option Loop
printed none l = none
printed (some t) l = some l

unfoldable pub receive : List ℕ → ℕ → Option ClientState → Loop → Option Loop
unfolding put_text printed
receive bytes slot none l = none
receive bytes slot (some c) l =
    printed (c_string (put_text bytes c).buffer)
      (record l { clients = update_slot slot (put_text bytes) l.clients })

-- For a descriptor that no slot has, slot -1 is read from: `none`.
unfoldable pub serve_client : List ℕ → Option ℕ → Option ℕ → Loop → Option Loop
unfolding receive drop_client
serve_client bytes fd none l = none
serve_client [] fd (some slot) l = some (drop_client fd slot l)
serve_client (x ∷ bytes) fd (some slot) l = receive (x ∷ bytes) slot (get_elem? l.clients slot) l

unfoldable pub next_events : (Loop → Option Loop) → Option Loop → Option Loop
next_events k none = none
next_events k (some l) = k l

-- `for (i = 1; i <= nfds && n_events > 0; i++)`, over the entries from `i` on. `none` is a fault: an
-- entry behind the array, or one of the above.
unfoldable pub serve_events :
    (reads : Option ℕ → List ℕ) → List PollFd → (i n_events : ℕ) → Loop → Option Loop
serve_events reads [] i n_events l = if leb i l.nfds && ltb 0 n_events then none else some l
serve_events reads (p ∷ fds) i n_events l =
    let skip = serve_events reads fds (i + 1) n_events l in
    let served =
      next_events (serve_events reads fds (i + 1) (n_events - 1))
        (serve_client (reads p.fd) p.fd (find_slot_by_fd l.clients p.fd) l) in
    if leb i l.nfds && ltb 0 n_events then (if p.revents.pollin then served else skip) else some l

-- `accept` that fails ends the round.
unfoldable pub serve_round :
    (reads : Option ℕ → List ℕ)
    → List PollFd
    → (n_events : ℕ) → Option (Option ℕ)
    → Loop
    → Option Loop
unfolding accept_client
serve_round reads fds n_events none l = serve_events reads fds 1 n_events l
serve_round reads fds n_events (some none) l = some l
serve_round reads fds n_events (some (some d)) l =
    serve_events reads fds 1 (n_events - 1) (accept_client d l)

-- One round; `fds` are the entries behind that of the listening socket.
unfoldable pub round : (reads : Option ℕ → List ℕ) → Events → List PollFd → Loop → Option Loop
unfolding serve_round
round reads ev fds l =
    serve_round reads (poll_fds ev.revents (list_fds l.clients fds)) ev.n_events ev.accepted l

-- `none` is exit(EXIT_FAILURE).
unfoldable pub enter_loop : Sockets → Option Loop
unfolding start_loop
enter_loop s = if s.opened && s.reusable && s.bound && s.listening then some start_loop else none

-- The entries behind that of the listening socket, as the loop is entered: zeroed.
unfoldable pub start_fds : List PollFd
start_fds = replicate max_clients (record { fd = some 0; revents = no_revents })

-- What a round leaves in them.
unfoldable pub next_fds : Events → List PollFd → Loop → List PollFd
next_fds ev fds l = poll_fds ev.revents (list_fds l.clients fds)
