-- ===== src/Select/Round/Invariant.antt =====
-- What every round keeps of the table of clients.
use lowlevel_academy.Prelude.{
  ℕ, zero, suc, ◌≡◌, ◌≢◌, ◌<◌, refl, ap, subst, ◌∙◌, Bool, List, [], ◌∷◌, Option, none, some, arith,
  length, drop, replicate, Bool-cases, inl, inr, Option-cases, true, lt→ltb,
}
use lowlevel_academy.Memory.{write_bytes, drop-write_bytes}
use lowlevel_academy.Cstring.Copy.{c_string-drop}
use lowlevel_academy.Select.{
  ClientState, state_connected, fresh_client, init_clients, find_free_slot,
}
use lowlevel_academy.Select.Round.{
  fits_set, Loop, Events, drop_slot, printed, receive, serve_fd, keep_slot, serve_slots, serve_loop,
  serve_round, round, place_client, take_slot, update_slot, closed_by, sets_fit,
}

-- A free slot has a zeroed buffer and is not connected; a slot in use is connected, and its
-- descriptor fits a set.
abbrev pub FdState : Option ℕ → ClientState → Type 0
FdState none c = (c.buffer ≡ replicate 4096 0) × (c.state ≢ state_connected)
FdState (some d) c = (c.state ≡ state_connected) × (d < 1024)

-- The last byte of the buffer is a NUL, and it is the byte 4095.
pub record IsSlot (c : ClientState) : Type 0 where
  pub ended : drop 4095 c.buffer ≡ 0 ∷ []
  pub fd_state : FdState c.fd c

abbrev pub AllSlots : List ClientState → Type 0
AllSlots [] = Unit {0}
AllSlots (c ∷ cs) = IsSlot c × AllSlots cs

drop_slot-IsSlot : (c : ClientState) → IsSlot (drop_slot c)
unfolding drop_slot
drop_slot-IsSlot c = record { ended = refl; fd_state = (refl, λ q. cc) }

connected_fd :
    (d : ℕ) (c : ClientState)
    → c.fd ≡ some d
    → (c.state ≡ state_connected) × (d < 1024)
    → FdState c.fd c
connected_fd d c p q = rw p q

connected :
    (c : ClientState) (d : ℕ)
    → c.fd ≡ some d
    → FdState c.fd c
    → (c.state ≡ state_connected) × (d < 1024)
connected c d p s = subst (λ o. FdState o c) p s

receive-IsSlot :
    (d : ℕ) (bytes : List ℕ) (c : ClientState)
    → c.fd ≡ some d
    → IsSlot c
    → length bytes < 4096
    → (c' : ClientState) × (receive bytes c ≡ some c') × IsSlot c'
unfolding receive printed
receive-IsSlot d [] c p v h = (drop_slot c, refl, drop_slot-IsSlot c)
receive-IsSlot d (x ∷ bytes) c p v h =
    let b : List ℕ = write_bytes 0 (x ∷ bytes) c.buffer in
    let e : drop 4095 b ≡ 0 ∷ [] =
      drop-write_bytes 0 4095 (x ∷ bytes) c.buffer (omega arith) (omega arith) ∙ v.ended in
    let t = c_string-drop 4095 b [] e in
    rw t.1 (
      record c { buffer = b },
      refl,
      record {
        ended = e;
        fd_state = connected_fd d (record c { buffer = b }) p (connected c d p v.fd_state);
      },
    )

serve_fd-IsSlot :
    (isset : ℕ → Bool) (reads : ℕ → List ℕ) (o : Option ℕ) (c : ClientState)
    → c.fd ≡ o
    → IsSlot c
    → ((d : ℕ) → length (reads d) < 4096)
    → (c' : ClientState) × (serve_fd isset reads o c ≡ some c') × IsSlot c'
unfolding serve_fd
serve_fd-IsSlot isset reads none c p v h = (c, refl, v)
serve_fd-IsSlot isset reads (some d) c p v h = elim (Bool-cases (isset d)) [
  | inl q ↦ rw q (receive-IsSlot d (reads d) c p v (h d))
  | inr q ↦ rw q (c, refl, v)
]

abbrev Served : List ClientState → Option Loop → Type 0
Served cs o = (l : Loop) × (o ≡ some l) × AllSlots l.clients × (length l.clients ≡ length cs)

serve_slots-Served :
    (isset : ℕ → Bool) (reads : ℕ → List ℕ) (cs : List ClientState) (closed : List ℕ)
    → AllSlots cs
    → ((d : ℕ) → length (reads d) < 4096)
    → Served cs (serve_slots isset reads cs closed)
unfolding serve_slots keep_slot
serve_slots-Served isset reads [] closed v h = (_, refl, tt, refl)
serve_slots-Served isset reads (c ∷ cs) closed v h =
    let (c', p, w) = serve_fd-IsSlot isset reads c.fd c refl v.0 h in
    let (l, q, ws, n) =
      serve_slots-Served isset reads cs (closed_by isset reads c.fd closed) v.1 h in
    rw (p, q) (_, refl, (w, ws), ap suc n)

take_slot-IsSlot : (d : ℕ) (c : ClientState) → d < 1024 → IsSlot c → IsSlot (take_slot d c)
unfolding take_slot
take_slot-IsSlot d c h v = record { ended = v.ended; fd_state = (refl, h) }

update_slot-AllSlots :
    (i d : ℕ) (cs : List ClientState)
    → d < 1024
    → AllSlots cs
    → AllSlots (update_slot i (take_slot d) cs)
      × (length (update_slot i (take_slot d) cs) ≡ length cs)
unfolding update_slot
update_slot-AllSlots i d [] h v = (tt, refl)
update_slot-AllSlots zero d (c ∷ cs) h v = ((take_slot-IsSlot d c h v.0, v.1), refl)
update_slot-AllSlots (suc i) d (c ∷ cs) h v =
    let r = update_slot-AllSlots i d cs h v.1 in ((v.0, r.0), ap suc r.1)

place_client-AllSlots :
    (d : ℕ) (o : Option ℕ) (l : Loop)
    → d < 1024
    → AllSlots l.clients
    → AllSlots (place_client d o l).clients
      × (length (place_client d o l).clients ≡ length l.clients)
unfolding place_client
place_client-AllSlots d none l h v = (v, refl)
place_client-AllSlots d (some i) l h v = update_slot-AllSlots i d l.clients h v

serve_round-Served :
    (isset : ℕ → Bool) (ev : Events) (a : Option (Option ℕ)) (l : Loop)
    → ((d : ℕ) → a ≡ some (some d) → d < 1024)
    → AllSlots l.clients
    → ((d : ℕ) → length (ev.reads d) < 4096)
    → Served l.clients (serve_round isset ev a l)
unfolding serve_round serve_loop
serve_round-Served isset ev none l low v h =
    serve_slots-Served isset ev.reads l.clients l.closed v h
serve_round-Served isset ev (some none) l low v h = (l, refl, v, refl)
serve_round-Served isset ev (some (some d)) l low v h =
    let l' = place_client d (find_free_slot l.clients) l in
    let w = place_client-AllSlots d (find_free_slot l.clients) l (low d refl) v in
    let (r, p, u, n) = serve_slots-Served isset ev.reads l'.clients l'.closed w.0 h in
    (r, p, u, n ∙ w.1)

sets_fit-AllSlots :
    (listen_fd : ℕ) (cs : List ClientState)
    → listen_fd < 1024
    → AllSlots cs
    → sets_fit listen_fd cs ≡ true
unfolding sets_fit fits_set
sets_fit-AllSlots k [] low v = lt→ltb k 1024 low
sets_fit-AllSlots k (c ∷ cs) low v =
    let rest = sets_fit-AllSlots k cs low v.1 in
    elim (Option-cases c.fd) [
      | inl p ↦ rw (p, rest) refl
      | inr (d, p) ↦
          let below = (connected c d p v.0.fd_state).1 in rw (p, lt→ltb d 1024 below, rest) refl
    ]

-- While no read returns all of the 4096 bytes of a buffer, and the listening socket and an accepted
-- one are below FD_SETSIZE, a round does not fault, whatever is ready, and keeps the size of the table and these rules for each slot: it is connected
-- if it has a descriptor; otherwise it is not, and its buffer is zeroed; and the last byte of each
-- buffer is a NUL.
pub round-AllSlots :
    (listen_fd : ℕ) (ev : Events) (l : Loop)
    → listen_fd < 1024
    → ((d : ℕ) → ev.accepted ≡ some (some d) → d < 1024)
    → AllSlots l.clients
    → ((d : ℕ) → length (ev.reads d) < 4096)
    → (l' : Loop) × (round listen_fd ev l ≡ some l')
      × AllSlots l'.clients
      × (length l'.clients ≡ length l.clients)
unfolding round
round-AllSlots listen_fd ev l low fresh v h =
    rw (sets_fit-AllSlots listen_fd l.clients low v)
      (serve_round-Served _ ev ev.accepted l fresh v h)

all_fresh : (n : ℕ) → AllSlots (replicate n fresh_client)
unfolding fresh_client
all_fresh zero = tt
all_fresh (suc n) = (record { ended = refl; fd_state = (refl, λ q. cc) }, all_fresh n)

-- The table as `init_clients` leaves it keeps these rules.
pub init_clients-AllSlots : AllSlots init_clients
unfolding init_clients
init_clients-AllSlots = all_fresh 256
