-- ===== src/Server/Loop/Counting.antt =====
-- `nfds` counts the listening socket and the slots in use.
use lowlevel_academy.Prelude.{
  subst, ℕ, zero, suc, ◌+◌, ◌-◌, ◌≡◌, ◌≢◌, refl, ap, subst, ◌∙◌, Bool, ◌&&◌, List, [], ◌∷◌, Option,
  none, some, arith, get_elem?, ltb, leb, Bool-cases, Option-cases, inl, inr,
}
use lowlevel_academy.Host.{Endian}
use lowlevel_academy.Memory.{write_bytes}
use lowlevel_academy.Server.{ClientState}
use lowlevel_academy.Server.Slots.{find_free_slot}
use lowlevel_academy.Server.Slots.Search.{IsFirst, find_free_slot_lem, find_slot_by_fd_lem}
use lowlevel_academy.Server.Fsm.{Handled}
use lowlevel_academy.Server.Fsm.Steps.{handle_client_fsm-Moves}
use lowlevel_academy.Server.Loop.{
  Revents, PollFd, Loop, list_fds, poll_fds, take_slot, update_slot, place_client, accept_client,
  drop_slot, drop_client, finish_message, printed, serve_message, serve_client, serve_events,
  next_events, serve_round, Events, round,
}

abbrev pub slot_weight : Option ℕ → ℕ
slot_weight none = 0
slot_weight (some d) = 1

-- The number of slots in use.
abbrev pub used : List ClientState → ℕ
used [] = 0
used (c ∷ cs) = slot_weight c.fd + used cs

-- What a change of one slot does to the number.
pub used-update_slot :
    (cs : List ClientState) (i : ℕ) (g : ClientState → ClientState) (c : ClientState)
    → get_elem? cs i ≡ some c
    → used (update_slot i g cs) + slot_weight c.fd ≡ used cs + slot_weight (g c).fd
unfolding update_slot
used-update_slot [] i g c h = cc
used-update_slot (d ∷ cs) zero g c h = ground arith
used-update_slot (d ∷ cs) (suc i) g c h = omega (arith, used-update_slot cs i g c h)

pub slot_at :
    (cs : List ClientState) (r i : ℕ) (c : ClientState)
    → r ≡ 0 + i
    → get_elem? cs i ≡ some c
    → get_elem? cs r ≡ some c
slot_at cs r i c e g = let same : r ≡ i = omega arith in ap (get_elem? cs) same ∙ g

-- `nfds` is one more than the number of slots in use.
abbrev pub IsCounted : Loop → Type 0
IsCounted l = l.nfds ≡ 1 + used l.clients

abbrev AllCounted : Option Loop → Type 0
AllCounted none = Unit {0}
AllCounted (some l) = IsCounted l

weight-take_slot : (d : ℕ) (c : ClientState) → slot_weight (take_slot d c).fd ≡ 1
unfolding take_slot
weight-take_slot d c = refl

weight-drop_slot : (c : ClientState) → slot_weight (drop_slot c).fd ≡ 0
unfolding drop_slot
weight-drop_slot c = refl

weight-some : (o : Option ℕ) → o ≢ none → slot_weight o ≡ 1
weight-some none h = absurd (h refl)
weight-some (some d) h = refl

place_client-IsCounted :
    (d : ℕ) (l : Loop) (o : Option ℕ)
    → IsCounted l
    → IsFirst none 0 l.clients o
    → IsCounted (place_client d o l)
unfolding place_client
place_client-IsCounted d l none h f = h
place_client-IsCounted d l (some r) h (i, e, lt, (c, g, free), below) =
    let at_r : get_elem? l.clients r ≡ some c = slot_at l.clients r i c e g in
    let zero_weight : slot_weight c.fd ≡ 0 = ap slot_weight free in
    omega
      (arith, used-update_slot l.clients r (take_slot d) c at_r, weight-take_slot d c, zero_weight)

pub accept_client-IsCounted : (d : ℕ) (l : Loop) → IsCounted l → IsCounted (accept_client d l)
unfolding accept_client
accept_client-IsCounted d l h =
    place_client-IsCounted d l (find_free_slot l.clients) h (find_free_slot_lem l.clients)

drop_client-IsCounted :
    (fd : Option ℕ) (l : Loop) (i : ℕ) (c : ClientState)
    → fd ≢ none
    → get_elem? l.clients i ≡ some c
    → c.fd ≡ fd
    → IsCounted l
    → IsCounted (drop_client fd i l)
unfolding drop_client
drop_client-IsCounted fd l i c ne g e h =
    let one_weight : slot_weight c.fd ≡ 1 = ap slot_weight e ∙ weight-some fd ne in
    omega (arith, used-update_slot l.clients i drop_slot c g, weight-drop_slot c, one_weight)

finish_message-IsCounted :
    (l : Loop) (i : ℕ) (c : ClientState) (o : Option Handled)
    → get_elem? l.clients i ≡ some c
    → ((r : Handled) → o ≡ some r → r.client.fd ≡ c.fd)
    → IsCounted l
    → AllCounted (finish_message i l o)
unfolding finish_message
finish_message-IsCounted l i c none g m h = tt
finish_message-IsCounted l i c (some r) g m h =
    omega (arith, used-update_slot l.clients i (λ _. r.client) c g, ap slot_weight (m r refl))

-- No entry of `fds` holds -1.
abbrev pub AllFds : List PollFd → Type 0
AllFds [] = Unit {0}
AllFds (p ∷ fds) = (p.fd ≢ none) × AllFds fds

printed-IsCounted :
    (t : Option (List ℕ × List ℕ)) (o : Option Loop) → AllCounted o → AllCounted (printed t o)
unfolding printed
printed-IsCounted none o h = tt
printed-IsCounted (some t) o h = h

serve_message-IsCounted :
    (e : Endian) (b : Bool) (bytes : List ℕ) (l : Loop) (i : ℕ) (c : ClientState)
    → get_elem? l.clients i ≡ some c
    → IsCounted l
    → AllCounted (serve_message e b bytes i (get_elem? l.clients i) l)
unfolding serve_message
serve_message-IsCounted e b bytes l i c g h = rw g (
    printed-IsCounted _ _ (
      finish_message-IsCounted l i c _ g
        (λ r q.
          (handle_client_fsm-Moves e b l.db l.disk
            (record c { buffer = write_bytes 0 bytes c.buffer }) r q).0)
        h))

serve_client-IsCounted :
    (e : Endian) (b : Bool) (bytes : List ℕ) (fd o : Option ℕ) (l : Loop)
    → fd ≢ none
    → IsFirst fd 0 l.clients o
    → IsCounted l
    → AllCounted (serve_client e b bytes fd o l)
unfolding serve_client
serve_client-IsCounted e b bytes fd none l ne f h = tt
serve_client-IsCounted e b [] fd (some r) l ne (i, q, lt, (c, g, same), below) h =
    drop_client-IsCounted fd l r c ne (slot_at l.clients r i c q g) same h
serve_client-IsCounted e b (x ∷ bytes) fd (some r) l ne (i, q, lt, (c, g, same), below) h =
    serve_message-IsCounted e b (x ∷ bytes) l r c (slot_at l.clients r i c q g) h

next_events-IsCounted :
    (k : Loop → Option Loop) (o : Option Loop)
    → ((l : Loop) → IsCounted l → AllCounted (k l))
    → AllCounted o
    → AllCounted (next_events k o)
unfolding next_events
next_events-IsCounted k none m h = tt
next_events-IsCounted k (some l) m h = m l h

serve_events-IsCounted :
    (e : Endian) (b : Bool) (reads : Option ℕ → List ℕ) (fds : List PollFd) (i n : ℕ)
    → AllFds fds
    → (l : Loop) → IsCounted l
    → AllCounted (serve_events e b reads fds i n l)
unfolding serve_events
serve_events-IsCounted e b reads [] i n v l h = elim (Bool-cases (leb i l.nfds && ltb 0 n)) [
  | inl p ↦ rw (AllCounted, p) tt
  | inr p ↦ rw (AllCounted, p) h
]
serve_events-IsCounted e b reads (p ∷ fds) i n v l h = elim (Bool-cases (leb i l.nfds && ltb 0 n)) [
  | inl q ↦ elim (Bool-cases p.revents.pollin) [
    | inl w ↦
        rw (AllCounted, q, w)
          (next_events-IsCounted (serve_events e b reads fds (i + 1) (n - 1)) _
            (serve_events-IsCounted e b reads fds (i + 1) (n - 1) v.1)
            (serve_client-IsCounted e b (reads p.fd) p.fd _ l v.0
              (find_slot_by_fd_lem l.clients p.fd) h))
    | inr w ↦ rw (AllCounted, q, w) (serve_events-IsCounted e b reads fds (i + 1) n v.1 l h)
  ]
  | inr q ↦ rw (AllCounted, q) h
]

pub list_fds-AllFds :
    (cs : List ClientState) (fds : List PollFd) → AllFds fds → AllFds (list_fds cs fds)
unfolding list_fds
list_fds-AllFds [] fds v = v
list_fds-AllFds (c ∷ cs) [] v = tt
list_fds-AllFds (c ∷ cs) (p ∷ fds) v = elim (Option-cases c.fd) [
  | inl q ↦ rw (AllFds, q) (list_fds-AllFds cs (p ∷ fds) v)
  | inr (d, q) ↦ rw (AllFds, q) (λ n. cc, list_fds-AllFds cs fds v.1)
]

pub poll_fds-AllFds :
    (bs : List Revents) (fds : List PollFd) → AllFds fds → AllFds (poll_fds bs fds)
unfolding poll_fds
poll_fds-AllFds [] fds v = v
poll_fds-AllFds (b ∷ bs) [] v = tt
poll_fds-AllFds (b ∷ bs) (p ∷ fds) v = (v.0, poll_fds-AllFds bs fds v.1)

serve_round-IsCounted :
    (e : Endian) (b : Bool) (reads : Option ℕ → List ℕ) (fds : List PollFd) (n : ℕ)
    (a : Option (Option ℕ)) (l : Loop)
    → AllFds fds
    → IsCounted l
    → AllCounted (serve_round e b reads fds n a l)
unfolding serve_round
serve_round-IsCounted e b reads fds n none l v h = serve_events-IsCounted e b reads fds 1 n v l h
serve_round-IsCounted e b reads fds n (some none) l v h = h
serve_round-IsCounted e b reads fds n (some (some d)) l v h =
    serve_events-IsCounted e b reads fds 1 (n - 1) v (accept_client d l)
      (accept_client-IsCounted d l h)

-- Whatever connections, data and failures a round brings, and whether or not the table is full,
-- `nfds` stays one more than the number of slots in use, as long as no entry of `fds` holds -1.
pub round-IsCounted :
    (e : Endian) (b : Bool) (reads : Option ℕ → List ℕ) (ev : Events) (fds : List PollFd)
    (l l' : Loop)
    → AllFds fds
    → IsCounted l
    → round e b reads ev fds l ≡ some l'
    → IsCounted l'
unfolding round
round-IsCounted e b reads ev fds l l' v h q = subst AllCounted q (
    serve_round-IsCounted e b reads (poll_fds ev.revents (list_fds l.clients fds)) ev.n_events
      ev.accepted l (poll_fds-AllFds ev.revents _ (list_fds-AllFds l.clients fds v)) h)
