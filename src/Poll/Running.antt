-- ===== src/Poll/Running.antt =====
-- The poll server from its start, over any number of rounds.
use lowlevel_academy.Prelude.{
  sym, ℕ, ◌≡◌, ◌<◌, ◌&&◌, ◌∙◌, subst, inl, inr, List, Option, none, some, Bool-cases, length,
  length-replicate, arith,
}
use lowlevel_academy.Server.Loop.{no_revents, PollFd, Events, Sockets, list_fds}
use lowlevel_academy.Server.Loop.Walk.{IsReadable}
use lowlevel_academy.Server.Loop.Ready.{length-list_fds, length-poll_fds}
use lowlevel_academy.Poll.{Loop, start_loop, enter_loop, start_fds, next_fds, round}
use lowlevel_academy.Poll.Sound.{IsSound}
use lowlevel_academy.Poll.Total.{IsPolled, start_loop-IsSound, poll_round_total}

-- The states where `while (1)` begins, with the entries of `poll`: the first one, and those behind
-- rounds in which `poll` and `accept` keep their promises, no descriptor has an error without POLLIN,
-- and no read brings 4096 bytes.
pub data Running : Loop → List PollFd → Type 0 where
  entered : {l : Loop} (s : Sockets) → enter_loop s ≡ some l → Running l start_fds
  served :
      {l l' : Loop} {fds : List PollFd} (reads : Option ℕ → List ℕ) (ev : Events)
      → Running l fds
      → ((fd : Option ℕ) → length (reads fd) < 4096)
      → IsPolled ev l
      → IsReadable ev
      → round reads ev fds l ≡ some l'
      → Running l' (next_fds ev fds l)

abbrev zeroed_entry : PollFd
zeroed_entry = record { fd = some 0; revents = no_revents }

length-start_fds : length start_fds ≡ 256
unfolding start_fds
length-start_fds = length-replicate 256 zeroed_entry

length-next_fds :
    (ev : Events) (fds : List PollFd) (l : Loop) → length (next_fds ev fds l) ≡ length fds
unfolding next_fds
length-next_fds ev fds l =
    length-poll_fds ev.revents (list_fds l.clients fds) ∙ length-list_fds l.clients fds

enter_loop-IsSound : (s : Sockets) (l : Loop) → enter_loop s ≡ some l → IsSound l
unfolding enter_loop
enter_loop-IsSound s l p = elim (Bool-cases (s.opened && s.reusable && s.bound && s.listening)) [
  | inl q ↦
      let same : start_loop ≡ l = ground (arith, p, q) in subst IsSound same start_loop-IsSound
  | inr q ↦ absurd (ground (arith, p, q))
]

abbrev AllSound : Option Loop → Type 0
AllSound none = Unit {0}
AllSound (some l) = IsSound l

Running-IsSound : {l : Loop} {fds : List PollFd} → Running l fds → IsSound l × (length fds ≡ 256)
Running-IsSound {l = l} (entered s p) = (enter_loop-IsSound s l p, length-start_fds)
Running-IsSound (served {l = m} {fds = fds} reads ev g short polled readable p) =
    let (v, size) = Running-IsSound g in
    let (l', q, w) = poll_round_total reads ev fds m short size v polled readable in
    let sound : AllSound (some l') = w in
    (subst AllSound (sym q ∙ p) sound, length-next_fds ev fds m ∙ size)

-- A poll server that could set up its socket runs on without a fault, for any number of rounds: each
-- ready descriptor has a slot, no entry behind those that `poll` looked at is read, and no string
-- without a NUL is printed. After each round the table has 256 slots, no two with one descriptor and
-- each with a NUL in the last byte of its buffer, and `nfds` is one more than the slots in use. In
-- each round `poll` and `accept` keep their promises, no read brings 4096 bytes, and `poll` reports no
-- error of a descriptor without POLLIN, which it does not promise.
pub poll_server_total :
    (reads : Option ℕ → List ℕ) (ev : Events) (fds : List PollFd) (l : Loop)
    → Running l fds
    → ((fd : Option ℕ) → length (reads fd) < 4096)
    → IsPolled ev l
    → IsReadable ev
    → (l' : Loop) × (round reads ev fds l ≡ some l') × IsSound l'
poll_server_total reads ev fds l g short polled readable =
    let (v, size) = Running-IsSound g in
    poll_round_total reads ev fds l short size v polled readable
