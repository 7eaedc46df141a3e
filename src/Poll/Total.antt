-- ===== src/Poll/Total.antt =====
-- No round of the poll server faults.
use lowlevel_academy.Prelude.{
  ℕ, ◌+◌, ◌-◌, ◌≡◌, ◌<◌, refl, true, false, ◌≢◌, ◌&&◌, List, [], ◌∷◌, Option, some, arith, length,
  ltb, leb,
}
use lowlevel_academy.Server.Loop.{PollFd, Events}
use lowlevel_academy.Server.Slots.{fresh_client}
use lowlevel_academy.Server.Loop.Change.{fresh-IsTable}
use lowlevel_academy.Server.Loop.Table.{Has, used-fresh}
use lowlevel_academy.Poll.{
  init_clients, start_loop, Loop, accept_client, serve_client, find_slot_by_fd, next_events,
  serve_events, serve_round, round,
}
use lowlevel_academy.Server.Loop.Walk.{Walk, Others, IsReport, IsReadable, polled-Ends}
use lowlevel_academy.Poll.Sound.{IsSound, serve_client-Serves, accept_client-Accepted}

module _ (reads : Option ℕ → List ℕ) where
  abbrev serve : Option ℕ → Loop → Option Loop
  serve fd l = serve_client (reads fd) fd (find_slot_by_fd l.clients fd) l

  serve_events-stops :
      (ps : List PollFd) (i n : ℕ) (l : Loop)
      → (leb i l.nfds && ltb 0 n) ≡ false
      → serve_events reads ps i n l ≡ some l
  unfolding serve_events
  serve_events-stops [] i n l h = rw h refl
  serve_events-stops (p ∷ ps) i n l h = rw h refl

  serve_events-skips :
      (p : PollFd) (ps : List PollFd) (i n : ℕ) (l : Loop)
      → (leb i l.nfds && ltb 0 n) ≡ true
      → p.revents.pollin ≡ false
      → serve_events reads (p ∷ ps) i n l ≡ serve_events reads ps (i + 1) n l
  unfolding serve_events
  serve_events-skips p ps i n l h k = rw (h, k) refl

  serve_events-reads :
      (p : PollFd) (ps : List PollFd) (i n : ℕ) (l l' : Loop)
      → (leb i l.nfds && ltb 0 n) ≡ true
      → p.revents.pollin ≡ true
      → serve p.fd l ≡ some l'
      → serve_events reads (p ∷ ps) i n l ≡ serve_events reads ps (i + 1) (n - 1) l'
  unfolding serve_events next_events
  serve_events-reads p ps i n l l' h k q = rw (h, k, q) refl

  module _ (short : (fd : Option ℕ) → length (reads fd) < 4096) where
    serve-IsSound :
        (n d : ℕ) (l : Loop)
        → IsSound l
        → Has d l.clients
        → (l' : Loop) × (serve (some d) l ≡ some l')
          × IsSound l'
          × Others (λ x. x ≢ d) l.clients l'.clients
    serve-IsSound n d l v has =
        let (l', q, w) = serve_client-Serves d (reads (some d)) l (short (some d)) has v in
        (l', q, w.sound, w.others)

    accept_client-IsSound :
        (n d : ℕ) (l : Loop)
        → IsSound l
        → ¬ Has d l.clients
        → IsSound (accept_client d l) × Others (λ x. Unit {0}) l.clients (accept_client d l).clients
    accept_client-IsSound n d l v absent =
        let w = accept_client-Accepted d l absent v in (w.sound, λ x _ h. w.others x h)

    abbrev poll_walk : Walk Loop
    unfolding serve_round
    poll_walk = record {
      clients = λ l. l.clients;
      nfds = λ l. l.nfds;
      serve = serve;
      accept = accept_client;
      walk = serve_events reads;
      round = serve_round reads;
      Holds = λ n l. IsSound l;
      tidy = λ n l v. v.table;
      serves = serve-IsSound;
      accepts = accept_client-IsSound;
      stops = serve_events-stops;
      skips = serve_events-skips;
      reads = serve_events-reads;
      without = λ ps n l. refl;
      failing = λ ps n l. refl;
      accepting = λ ps n d l. refl;
    }

-- What `poll` and `accept` promise in a state of the loop.
abbrev pub IsPolled : Events → Loop → Type 0
IsPolled ev l = IsReport ev l.clients l.nfds

-- A round keeps a sound state.
pub poll_round_total :
    (reads : Option ℕ → List ℕ) (ev : Events) (fds : List PollFd) (l : Loop)
    → ((fd : Option ℕ) → length (reads fd) < 4096)
    → length fds ≡ 256
    → IsSound l
    → IsPolled ev l
    → IsReadable ev
    → (l' : Loop) × (round reads ev fds l ≡ some l') × IsSound l'
unfolding round
poll_round_total reads ev fds l short size v polled readable =
    let (l', q, m, w) =
      polled-Ends (poll_walk reads short) ev fds l size (omega (arith, polled.reported, v.counted))
        polled readable v in
    (l', q, w)

-- The server starts in a sound state.
pub start_loop-IsSound : IsSound start_loop
unfolding start_loop init_clients fresh_client
start_loop-IsSound = record { table = fresh-IsTable; counted = omega (arith, used-fresh 256) }
