-- ===== src/Server/Loop/Total.antt =====
-- No round of the server faults.
use lowlevel_academy.Prelude.{
  ℕ, suc, ◌+◌, ◌-◌, ◌≡◌, ◌<◌, refl, ap, true, false, ◌≢◌, ◌&&◌, List, [], ◌∷◌, Option, some, arith,
  length, ltb, leb,
}
use lowlevel_academy.Host.{Endian}
use lowlevel_academy.Server.Slots.{find_slot_by_fd}
use lowlevel_academy.Server.Loop.{
  PollFd, Loop, Events, next_events, accept_client, serve_client, serve_events, serve_round, round,
}
use lowlevel_academy.Server.Loop.Counting.{IsCounted, AllFds, round-IsCounted}
use lowlevel_academy.Server.Loop.Table.{Has}
use lowlevel_academy.Server.Loop.Ready.{pollin_count}
use lowlevel_academy.Server.Loop.Walk.{Walk, Others, IsReport, IsReadable, polled-Ends}
use lowlevel_academy.Server.Loop.Sound.{IsSound, serve_client-Serves, accept_client-Accepted}

module _ (e : Endian) (reads : Option ℕ → List ℕ) where
  abbrev serve : Option ℕ → Loop → Option Loop
  serve fd l = serve_client e true (reads fd) fd (find_slot_by_fd l.clients fd) l

  serve_events-stops :
      (ps : List PollFd) (i n : ℕ) (l : Loop)
      → (leb i l.nfds && ltb 0 n) ≡ false
      → serve_events e true reads ps i n l ≡ some l
  unfolding serve_events
  serve_events-stops [] i n l h = rw h refl
  serve_events-stops (p ∷ ps) i n l h = rw h refl

  serve_events-skips :
      (p : PollFd) (ps : List PollFd) (i n : ℕ) (l : Loop)
      → (leb i l.nfds && ltb 0 n) ≡ true
      → p.revents.pollin ≡ false
      → serve_events e true reads (p ∷ ps) i n l ≡ serve_events e true reads ps (i + 1) n l
  unfolding serve_events
  serve_events-skips p ps i n l h k = rw (h, k) refl

  serve_events-reads :
      (p : PollFd) (ps : List PollFd) (i n : ℕ) (l l' : Loop)
      → (leb i l.nfds && ltb 0 n) ≡ true
      → p.revents.pollin ≡ true
      → serve p.fd l ≡ some l'
      → serve_events e true reads (p ∷ ps) i n l ≡ serve_events e true reads ps (i + 1) (n - 1) l'
  unfolding serve_events next_events
  serve_events-reads p ps i n l l' h k q = rw (h, k, q) refl

  -- The operations keep a sound state, and use up the room that is left for employees.
  abbrev Holds : ℕ → Loop → Type 0
  Holds n l = IsSound l × (l.db.header.count + n < 65536)

  module _ (short : (fd : Option ℕ) → length (reads fd) < 4096) where
    serve-Holds :
        (n d : ℕ) (l : Loop)
        → Holds (suc n) l
        → Has d l.clients
        → (l' : Loop) × (serve (some d) l ≡ some l')
          × Holds n l'
          × Others (λ x. x ≢ d) l.clients l'.clients
    serve-Holds n d l (v, room) has =
        let (l', q, w) =
          serve_client-Serves e l v (omega arith) d (reads (some d)) (short (some d)) has in
        (l', q, (w.sound, omega (arith, w.grown)), w.others)

    accept_client-Holds :
        (n d : ℕ) (l : Loop)
        → Holds n l
        → ¬ Has d l.clients
        → Holds n (accept_client d l) × Others (λ x. Unit {0}) l.clients (accept_client d l).clients
    accept_client-Holds n d l (v, room) absent =
        let w = accept_client-Accepted d l absent v in
        let c = ap (λ db. db.header.count) w.same_db in
        ((w.sound, omega arith), λ x _ h. w.others x h)

    abbrev server_walk : Walk Loop
    unfolding serve_round
    server_walk = record {
      clients = λ l. l.clients;
      nfds = λ l. l.nfds;
      serve = serve;
      accept = accept_client;
      walk = serve_events e true reads;
      round = serve_round e true reads;
      Holds = Holds;
      tidy = λ n l v. v.0.table;
      serves = serve-Holds;
      accepts = accept_client-Holds;
      stops = serve_events-stops;
      skips = serve_events-skips;
      reads = serve_events-reads;
      without = λ ps n l. refl;
      failing = λ ps n l. refl;
      accepting = λ ps n d l. refl;
    }

-- What `poll` and `accept` promise in a state of the loop.
abbrev pub IsPolled : Events → Loop → Type 0
IsPolled ev l = IsReport ev l.clients l.nfds

-- A round of the server does not fault, and leaves a sound state with `nfds` counted. What it
-- takes: the state is sound and counted, `poll` and `accept` keep their promises, `poll` reports no
-- error of a descriptor without POLLIN (which it does not promise), the array holds no -1, no read
-- brings 4096 bytes, `realloc` finds memory, and there is room for an employee from each client
-- that is ready. Sound are a table of 256 slots, no two with one descriptor and each with a NUL in
-- the last byte of its buffer, a valid database, and an open file that is its image, or empty while
-- it has no employees.
pub round_total :
    (e : Endian) (reads : Option ℕ → List ℕ) (ev : Events) (fds : List PollFd) (l : Loop)
    → ((fd : Option ℕ) → length (reads fd) < 4096)
    → length fds ≡ 256
    → AllFds fds
    → IsSound l
    → IsCounted l
    → IsPolled ev l
    → IsReadable ev
    → l.db.header.count + pollin_count ev.revents < 65536
    → (l' : Loop) × (round e true reads ev fds l ≡ some l') × IsSound l' × IsCounted l'
unfolding round
round_total e reads ev fds l short size all v counted polled readable room =
    let (l', q, m, w) =
      polled-Ends (server_walk e reads short) ev fds l size (omega (arith, polled.reported)) polled
        readable (v, room) in
    (l', q, w.0, round-IsCounted e true reads ev fds l l' all counted q)
