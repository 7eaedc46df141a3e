-- ===== src/Server/Loop/Stale.antt =====
-- An error without POLLIN, and an entry that is no longer in use.
use lowlevel_academy.Prelude.{
  ℕ, suc, ◌+◌, ◌≡◌, ◌≤◌, ◌<◌, ◌&&◌, Bool, true, false, List, [], ◌∷◌, ◌++◌, Option, none, some,
  refl, sym, ap, subst, ◌∙◌, arith, length, drop, ltb, leb,
}
use lowlevel_academy.Host.{Endian}
use lowlevel_academy.Server.{ClientState}
use lowlevel_academy.Server.Slots.{find_slot_by_fd}
use lowlevel_academy.Server.Slots.Search.{IsFirst, find_slot_by_fd_lem}
use lowlevel_academy.Server.Loop.{
  Revents, PollFd, Loop, Events, serve_client, next_events, serve_events, serve_round, round,
}
use lowlevel_academy.Server.Loop.Counting.{used, IsCounted}
use lowlevel_academy.Server.Loop.Table.{Has, Has-get}
use lowlevel_academy.Server.Loop.Ready.{
  fds_of, entries, pollin_count, ready_count, used-fds_of, poll_fds-list_fds, ready_count-entries,
}
use lowlevel_academy.Server.Loop.Total.{IsPolled}

-- The search for a descriptor that no slot has finds none.
not_found :
    (d : ℕ) (cs : List ClientState) (o : Option ℕ) → ¬ Has d cs → IsFirst (some d) 0 cs o → o ≡ none
not_found d cs none n f = refl
not_found d cs (some r) n (i, e, lt, (x, g, p), below) = absurd (n (Has-get cs i d x g p))

length-entries :
    (ds : List ℕ) (rs : List Revents) → length rs ≡ length ds → length (entries ds rs) ≡ length ds
length-entries [] rs h = refl
length-entries (d ∷ ds) [] h = absurd (omega (arith, h))
length-entries (d ∷ ds) (r ∷ rs) h = ap suc (length-entries ds rs (omega (arith, h)))

module _ (e : Endian) (b : Bool) (reads : Option ℕ → List ℕ) (l : Loop) (p : PollFd) (d : ℕ)
    (on : p.fd ≡ some d) (ready : p.revents.pollin ≡ true) (gone : ¬ Has d l.clients) where
  unserved : serve_client e b (reads p.fd) p.fd (find_slot_by_fd l.clients p.fd) l ≡ none
  unfolding serve_client
  unserved =
      let first =
        subst (λ z. IsFirst z 0 l.clients (find_slot_by_fd l.clients p.fd)) on
          (find_slot_by_fd_lem l.clients p.fd) in
      rw (not_found d l.clients (find_slot_by_fd l.clients p.fd) gone first) refl

  walk_on :
      (ps rest : List PollFd) (i n : ℕ)
      → ready_count ps ≡ 0
      → i + length ps ≤ l.nfds
      → 0 < n
      → serve_events e b reads (ps ++ p ∷ rest) i n l ≡ none
  unfolding serve_events next_events
  walk_on [] rest i n h k m =
      let go : (leb i l.nfds && ltb 0 n) ≡ true = ground (arith, k, m) in
      rw (go, ready, unserved) refl
  walk_on (x ∷ ps) rest i n h k m =
      let go : (leb i l.nfds && ltb 0 n) ≡ true = ground (arith, k, m) in
      let idle : x.revents.pollin ≡ false = ground (arith, h) in
      rw (go, idle) (walk_on ps rest (i + 1) n (omega (arith, h)) (omega (arith, k)) m)

-- What the loop over the entries does when `poll` reports errors only, as it may: no descriptor has
-- POLLIN, and at least one event is counted. The count is not used up by the entries that `poll`
-- looked at, and the loop reads the one behind them. If that one still has POLLIN from an earlier
-- round, for a descriptor that no slot has any more, the round has no defined behaviour: slot -1 is
-- accessed. It is so for every state in which `nfds` is counted and the array has an entry for each
-- slot in use, if `poll` keeps its promises and no connection is accepted in the round.
pub stale_faults :
    (e : Endian) (b : Bool) (reads : Option ℕ → List ℕ) (ev : Events) (fds rest : List PollFd)
    (l : Loop) (p : PollFd) (d : ℕ)
    → IsCounted l
    → used l.clients ≤ length fds
    → IsPolled ev l
    → ev.accepted ≡ none
    → pollin_count ev.revents ≡ 0
    → 0 < ev.n_events
    → drop (used l.clients) fds ≡ p ∷ rest
    → p.fd ≡ some d
    → p.revents.pollin ≡ true
    → ¬ Has d l.clients
    → round e b reads ev fds l ≡ none
unfolding round serve_round
stale_faults e b reads ev fds rest l p d counted size polled idle errors some_event behind on ready
      gone =
    let n : length ev.revents ≡ used l.clients = omega (arith, polled.reported, counted) in
    let same = n ∙ sym (used-fds_of l.clients) in
    let split =
      poll_fds-list_fds l.clients ev.revents fds n size
      ∙ ap (λ ps. entries (fds_of l.clients) ev.revents ++ ps) behind in
    let count = ready_count-entries (fds_of l.clients) ev.revents same in
    let long = length-entries (fds_of l.clients) ev.revents same in
    rw (split, idle)
      (walk_on e b reads l p d on ready gone (entries (fds_of l.clients) ev.revents) rest 1
        ev.n_events (count ∙ errors) (omega (arith, long, used-fds_of l.clients, counted))
        some_event)
