-- ===== src/Select/Round.antt =====
-- A round of `while (1)` in `main` of select_multiplexing.c: the descriptors are watched, `select`
-- reports which are ready, a client is accepted, and the clients with data are read from.
use lowlevel_academy.Prelude.{
  ℕ, zero, suc, ◌+◌, Bool, true, false, List, [], ◌∷◌, Option, none, some, replicate, ◌==◌, ltb,
  leb, ◌&&◌, ◌||◌, if◌then◌else◌,
}
use lowlevel_academy.Memory.{write_bytes}
use lowlevel_academy.Cstring.{c_string}
use lowlevel_academy.Select.{
  ClientState, state_connected, state_disconnected, buff_size, find_free_slot,
}
pub mod Watched
pub mod Invariant
pub mod Reading

-- The table, and the descriptors that were closed, the last one first.
pub record Loop : Type 0 where
  pub clients : List ClientState
  pub closed : List ℕ

-- FD_SETSIZE of glibc: `FD_SET` of a descriptor that is not below it writes behind the set.
abbrev pub fd_setsize : ℕ
fd_setsize = 1024

unfoldable pub fits_set : Option ℕ → Bool
fits_set none = true
fits_set (some d) = ltb d fd_setsize

-- Each `FD_SET` of a round is inside the set.
unfoldable pub sets_fit : (listen_fd : ℕ) → List ClientState → Bool
unfolding fits_set
sets_fit listen_fd [] = ltb listen_fd fd_setsize
sets_fit listen_fd (c ∷ cs) = fits_set c.fd && sets_fit listen_fd cs

-- `FD_SET` for each slot in use, beside the listening socket.
unfoldable pub add_fd : Option ℕ → List ℕ → List ℕ
add_fd none fds = fds
add_fd (some d) fds = d ∷ fds

unfoldable pub read_fds : ℕ → List ClientState → List ℕ
unfolding add_fd
read_fds listen_fd [] = listen_fd ∷ []
read_fds listen_fd (c ∷ cs) = add_fd c.fd (read_fds listen_fd cs)

-- `if (client_states[i].fd >= nfds) nfds = client_states[i].fd + 1`
unfoldable pub raise_nfds : Option ℕ → ℕ → ℕ
raise_nfds none nfds = nfds
raise_nfds (some d) nfds = if leb nfds d then d + 1 else nfds

unfoldable pub nfds_from : ℕ → List ClientState → ℕ
unfolding raise_nfds
nfds_from nfds [] = nfds
nfds_from nfds (c ∷ cs) = nfds_from (raise_nfds c.fd nfds) cs

unfoldable pub member : ℕ → List ℕ → Bool
member d [] = false
member d (x ∷ xs) = (d == x) || member d xs

-- What comes from outside in a round: which descriptors are ready, what `accept` returned if the
-- listening socket was (`some none`: it failed), and what `read` returns for a descriptor, nothing
-- when it failed or the client has closed.
pub record Events : Type 0 where
  pub ready : ℕ → Bool
  pub accepted : Option (Option ℕ)
  pub reads : ℕ → List ℕ

-- `FD_ISSET (d, &read_fds)` after `select (nfds, &read_fds, ...)`, which looks at the descriptors
-- below `nfds` that are in the set. A call that fails ends the program, and is left out.
unfoldable pub is_set : (ℕ → Bool) → ℕ → List ClientState → ℕ → Bool
unfolding member read_fds nfds_from
is_set ready listen_fd cs d =
    ready d && (member d (read_fds listen_fd cs) && ltb d (nfds_from (listen_fd + 1) cs))

unfoldable pub take_slot : ℕ → ClientState → ClientState
take_slot d c = record c { fd = some d; state = state_connected }

unfoldable pub update_slot : ℕ → (ClientState → ClientState) → List ClientState → List ClientState
update_slot i g [] = []
update_slot zero g (c ∷ cs) = g c ∷ cs
update_slot (suc i) g (c ∷ cs) = c ∷ update_slot i g cs

unfoldable pub place_client : ℕ → Option ℕ → Loop → Loop
unfolding take_slot update_slot
place_client d none l = record l { closed = d ∷ l.closed }
place_client d (some i) l = record l { clients = update_slot i (take_slot d) l.clients }

unfoldable pub drop_slot : ClientState → ClientState
drop_slot c = record { fd = none; state = state_disconnected; buffer = replicate buff_size 0 }

-- The text is printed up to its NUL: `none` if the buffer has none.
unfoldable pub printed : Option (List ℕ × List ℕ) → ClientState → Option ClientState
printed none c = none
printed (some t) c = some c

-- What `read` returned is put over the front of the buffer.
unfoldable pub receive : List ℕ → ClientState → Option ClientState
unfolding drop_slot printed
receive [] c = some (drop_slot c)
receive (x ∷ bytes) c =
    let buffer = write_bytes 0 (x ∷ bytes) c.buffer in
    printed (c_string buffer) (record c { buffer = buffer })

unfoldable pub serve_fd :
    (isset : ℕ → Bool) → (reads : ℕ → List ℕ) → Option ℕ → ClientState → Option ClientState
unfolding receive
serve_fd isset reads none c = some c
serve_fd isset reads (some d) c = let r = receive (reads d) c in if isset d then r else some c

unfoldable pub closed_by : (isset : ℕ → Bool) → (reads : ℕ → List ℕ) → Option ℕ → List ℕ → List ℕ
closed_by isset reads none closed = closed
closed_by isset reads (some d) closed = elim (reads d) [
  | [] ↦ if isset d then d ∷ closed else closed
  | x ∷ bytes ↦ closed
]

unfoldable pub keep_slot : Option ClientState → Option Loop → Option Loop
keep_slot (some c) (some l) = some (record l { clients = c ∷ l.clients })
keep_slot _ _ = none

-- The loop over the slots, from one on.
unfoldable pub serve_slots :
    (isset : ℕ → Bool) → (reads : ℕ → List ℕ) → List ClientState → List ℕ → Option Loop
unfolding keep_slot serve_fd closed_by
serve_slots isset reads [] closed = some (record { clients = []; closed = closed })
serve_slots isset reads (c ∷ cs) closed =
    keep_slot (serve_fd isset reads c.fd c)
      (serve_slots isset reads cs (closed_by isset reads c.fd closed))

unfoldable pub serve_loop : (isset : ℕ → Bool) → (reads : ℕ → List ℕ) → Loop → Option Loop
unfolding serve_slots
serve_loop isset reads l = serve_slots isset reads l.clients l.closed

-- After `select`. `accept` that fails ends the round.
unfoldable pub serve_round : (isset : ℕ → Bool) → Events → Option (Option ℕ) → Loop → Option Loop
unfolding serve_loop place_client
serve_round isset ev none l = serve_loop isset ev.reads l
serve_round isset ev (some none) l = some l
serve_round isset ev (some (some d)) l =
    serve_loop isset ev.reads (place_client d (find_free_slot l.clients) l)

-- `none` is a fault.
unfoldable pub round : (listen_fd : ℕ) → Events → Loop → Option Loop
unfolding serve_round sets_fit
round listen_fd ev l =
    let served = serve_round (is_set ev.ready listen_fd l.clients) ev ev.accepted l in
    if sets_fit listen_fd l.clients then served else none
