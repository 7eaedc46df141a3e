-- ===== src/Server/Loop/Quiet.antt =====
-- Clients do not disturb each other: a round leaves alone the slot of a client that is not ready.
use lowlevel_academy.Prelude.{
  false, ◌++◌, ◌≤◌, length, drop, if◌then◌else◌, ℕ, zero, suc, ◌+◌, ◌-◌, ◌≡◌, ◌≢◌, ◌&&◌, Bool, true,
  List, [], ◌∷◌, Option, none, some, if_both, subst, get_elem?, ltb, leb, refl, sym, ap, ◌∙◌, arith,
  inl, inr, Bool-cases,
}
use lowlevel_academy.Host.{Endian}
use lowlevel_academy.Memory.{write_bytes}
use lowlevel_academy.Cstring.{c_string}
use lowlevel_academy.Server.{ClientState}
use lowlevel_academy.Server.Slots.{find_free_slot, find_slot_by_fd}
use lowlevel_academy.Server.Slots.Search.{IsFirst, find_free_slot_lem, find_slot_by_fd_lem}
use lowlevel_academy.Server.Fsm.{Handled, handle_client_fsm}
use lowlevel_academy.Server.Loop.{
  PollFd, Loop, take_slot, update_slot, place_client, accept_client, drop_slot, drop_client,
  finish_message, printed, serve_message, serve_client, next_events, serve_events, Events,
  serve_round, round,
}
use lowlevel_academy.Server.Loop.Counting.{slot_at, used, IsCounted}
use lowlevel_academy.Server.Loop.Ready.{
  fds_of, entries, bit, ready_count, used-fds_of, poll_fds-list_fds, ready_count-entries,
}
use lowlevel_academy.Server.Loop.Walk.{accepted_count, IsReadable, readable-numbered}
use lowlevel_academy.Server.Loop.Total.{IsPolled}

-- No entry for the descriptor is ready.
abbrev pub AllQuiet : ℕ → List PollFd → Type 0
AllQuiet d [] = Unit {0}
AllQuiet d (p ∷ ps) = (p.revents.pollin ≡ true → p.fd ≢ some d) × AllQuiet d ps

get-update_slot :
    (g : ClientState → ClientState) (cs : List ClientState) (i k : ℕ)
    → i ≢ k
    → get_elem? (update_slot i g cs) k ≡ get_elem? cs k
unfolding update_slot
get-update_slot g [] i k n = refl
get-update_slot g (x ∷ cs) zero zero n = absurd (n refl)
get-update_slot g (x ∷ cs) zero (suc k) n = refl
get-update_slot g (x ∷ cs) (suc i) zero n = refl
get-update_slot g (x ∷ cs) (suc i) (suc k) n = get-update_slot g cs i k (λ q. n (ap suc q))

-- Slot `k` holds client `c`, on descriptor `d`.
module _ (k d : ℕ) (c : ClientState) (on : c.fd ≡ some d) where
  abbrev Keeps : Loop → Type 0
  Keeps l = get_elem? l.clients k ≡ some c

  abbrev MaybeKeeps : Option Loop → Type 0
  MaybeKeeps none = Unit {0}
  MaybeKeeps (some l) = Keeps l

  -- A search for another descriptor finds another slot.
  elsewhere :
      (fd : Option ℕ) (cs : List ClientState) (r : ℕ)
      → fd ≢ some d
      → get_elem? cs k ≡ some c
      → IsFirst fd 0 cs (some r)
      → r ≢ k
  elsewhere fd cs r n at_k (i, e, lt, (x, g, p), below) same =
      let at_r = slot_at cs r i x e g in
      let one : x ≡ c = ground (arith, at_r, at_k, same) in n (sym p ∙ ap (λ z. z.fd) one ∙ on)

  update-Keeps :
      (g : ClientState → ClientState) (cs : List ClientState) (r : ℕ)
      → r ≢ k
      → get_elem? cs k ≡ some c
      → get_elem? (update_slot r g cs) k ≡ some c
  update-Keeps g cs r n at_k = get-update_slot g cs r k n ∙ at_k

  place_client-Keeps :
      (x : ℕ) (o : Option ℕ) (l : Loop)
      → IsFirst none 0 l.clients o
      → Keeps l
      → Keeps (place_client x o l)
  unfolding place_client
  place_client-Keeps x none l f v = v
  place_client-Keeps x (some r) l f v =
      update-Keeps (take_slot x) l.clients r (elsewhere none l.clients r (λ q. cc) v f) v

  finish_message-Keeps :
      (r : ℕ) (l : Loop) (o : Option Handled) → r ≢ k → Keeps l → MaybeKeeps (finish_message r l o)
  unfolding finish_message
  finish_message-Keeps r l none n v = tt
  finish_message-Keeps r l (some h) n v = update-Keeps (λ _. h.client) l.clients r n v

  printed-Keeps :
      (t : Option (List ℕ × List ℕ)) (o : Option Loop) → MaybeKeeps o → MaybeKeeps (printed t o)
  unfolding printed
  printed-Keeps none o v = tt
  printed-Keeps (some t) o v = v

  next_events-Keeps :
      (f : Loop → Option Loop) (o : Option Loop)
      → ((l : Loop) → Keeps l → MaybeKeeps (f l))
      → MaybeKeeps o
      → MaybeKeeps (next_events f o)
  unfolding next_events
  next_events-Keeps f none h v = tt
  next_events-Keeps f (some l) h v = h l v

  module _ (e : Endian) (b : Bool) (reads : Option ℕ → List ℕ) where
    serve_message-Keeps :
        (bytes : List ℕ) (r : ℕ) (o : Option ClientState) (l : Loop)
        → r ≢ k
        → Keeps l
        → MaybeKeeps (serve_message e b bytes r o l)
    unfolding serve_message
    serve_message-Keeps bytes r none l n v = tt
    serve_message-Keeps bytes r (some x) l n v =
        printed-Keeps (c_string (write_bytes 0 bytes x.buffer)) _ (
          finish_message-Keeps r l
            (handle_client_fsm e b l.db l.disk (record x { buffer = write_bytes 0 bytes x.buffer }))
            n v)

    serve_client-Keeps :
        (bytes : List ℕ) (fd o : Option ℕ) (l : Loop)
        → fd ≢ some d
        → IsFirst fd 0 l.clients o
        → Keeps l
        → MaybeKeeps (serve_client e b bytes fd o l)
    unfolding serve_client drop_client
    serve_client-Keeps bytes fd none l n f v = tt
    serve_client-Keeps [] fd (some r) l n f v =
        update-Keeps drop_slot l.clients r (elsewhere fd l.clients r n v f) v
    serve_client-Keeps (x ∷ bytes) fd (some r) l n f v =
        serve_message-Keeps (x ∷ bytes) r (get_elem? l.clients r) l (elsewhere fd l.clients r n v f)
          v

    served-Keeps :
        (p : PollFd) (rest skip : Option Loop)
        → (p.revents.pollin ≡ true → MaybeKeeps rest)
        → (p.revents.pollin ≡ false → MaybeKeeps skip)
        → MaybeKeeps (if p.revents.pollin then rest else skip)
    served-Keeps p rest skip h v = elim (Bool-cases p.revents.pollin) [
      | inl q ↦ rw q (h q)
      | inr q ↦ rw q (v q)
    ]

    -- The entries `ps` that `poll` looked at, with others behind them.
    serve_events-Keeps :
        (ps rest : List PollFd) (i n : ℕ) (l : Loop)
        → n ≡ ready_count ps
        → AllQuiet d ps
        → Keeps l
        → MaybeKeeps (serve_events e b reads (ps ++ rest) i n l)
    unfolding serve_events
    serve_events-Keeps [] [] i n l h q v = if_both MaybeKeeps (leb i l.nfds && ltb 0 n) tt v
    serve_events-Keeps [] (p ∷ rest) i n l h q v =
        let done : (leb i l.nfds && ltb 0 n) ≡ false = ground (arith, h) in rw done v
    serve_events-Keeps (p ∷ ps) rest i n l h q v =
        if_both MaybeKeeps (leb i l.nfds && ltb 0 n)
          (served-Keeps p _ _
            (λ ready.
              let one : bit p.revents.pollin ≡ 1 = ap bit ready in
              next_events-Keeps (serve_events e b reads (ps ++ rest) (i + 1) (n - 1)) _
                (λ l' w.
                  serve_events-Keeps ps rest (i + 1) (n - 1) l' (omega (arith, h, one)) q.1 w)
                (serve_client-Keeps (reads p.fd) p.fd (find_slot_by_fd l.clients p.fd) l (q.0 ready)
                  (find_slot_by_fd_lem l.clients p.fd) v))
            (λ idle.
              let nothing : bit p.revents.pollin ≡ 0 = ap bit idle in
              serve_events-Keeps ps rest (i + 1) n l (omega (arith, h, nothing)) q.1 v))
          v

    serve_round-Keeps :
        (ps rest : List PollFd) (n : ℕ) (a : Option (Option ℕ)) (l : Loop)
        → n ≡ accepted_count a + ready_count ps
        → AllQuiet d ps
        → Keeps l
        → MaybeKeeps (serve_round e b reads (ps ++ rest) n a l)
    unfolding serve_round accept_client
    serve_round-Keeps ps rest n none l h q v =
        serve_events-Keeps ps rest 1 n l (omega (arith, h)) q v
    serve_round-Keeps ps rest n (some none) l h q v = v
    serve_round-Keeps ps rest n (some (some x)) l h q v =
        serve_events-Keeps ps rest 1 (n - 1) (accept_client x l) (omega (arith, h)) q
          (place_client-Keeps x (find_free_slot l.clients) l (find_free_slot_lem l.clients) v)

-- The clients of the server do not disturb each other: a round that is completed leaves the slot of
-- a client as it was, with its descriptor, its state and its buffer, if `poll` does not report POLLIN
-- for the client's descriptor, whoever connects, closes or sends what in that round. What it takes:
-- `nfds` is counted, the array has an entry for each slot in use, `poll` and `accept` keep their
-- promises, and `poll` reports no error of a descriptor without POLLIN (which it does not promise).
pub quiet_lem :
    (e : Endian) (b : Bool) (reads : Option ℕ → List ℕ) (ev : Events) (fds : List PollFd)
    (l l' : Loop) (k d : ℕ) (c : ClientState)
    → get_elem? l.clients k ≡ some c
    → c.fd ≡ some d
    → IsCounted l
    → used l.clients ≤ length fds
    → IsPolled ev l
    → IsReadable ev
    → AllQuiet d (entries (fds_of l.clients) ev.revents)
    → round e b reads ev fds l ≡ some l'
    → get_elem? l'.clients k ≡ some c
unfolding round
quiet_lem e b reads ev fds l l' k d c at_k on counted size polled readable quiet q =
    let n : length ev.revents ≡ used l.clients = omega (arith, polled.reported, counted) in
    let split = poll_fds-list_fds l.clients ev.revents fds n size in
    let ready =
      ready_count-entries (fds_of l.clients) ev.revents (n ∙ sym (used-fds_of l.clients)) in
    let total = readable-numbered ev polled.numbered readable in
    subst (MaybeKeeps k d c on)
      (sym (ap (λ ps. serve_round e b reads ps ev.n_events ev.accepted l) split) ∙ q)
      (serve_round-Keeps k d c on e b reads (entries (fds_of l.clients) ev.revents)
        (drop (used l.clients) fds) ev.n_events ev.accepted l (omega (arith, total, ready)) quiet
        at_k)
