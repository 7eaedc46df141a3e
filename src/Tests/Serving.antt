-- ===== src/Tests/Serving.antt =====
-- The theorems about whole rounds of the server: descriptor 9 connects to a server that has just been
-- started on an empty database.
use lowlevel_academy.Prelude.{
  false, ◌%◌, ◌≢◌, ℕ, ◌≡◌, ◌⊎◌, refl, inr, true, List, [], ◌∷◌, Option, some, arith, replicate,
  length-replicate,
}
use lowlevel_academy.Host.{little, big}
use lowlevel_academy.Database.{File}
use lowlevel_academy.Server.{ClientState}
use lowlevel_academy.Server.Slots.{fresh_client}
use lowlevel_academy.Server.Slots.Search.{init_clients_lem}
use lowlevel_academy.Server.Loop.{
  Sockets, enter_loop, start_fds, next_fds, Loop, Events, round, start_loop,
}
use lowlevel_academy.Server.Loop.Counting.{IsCounted}
use lowlevel_academy.Server.Loop.Table.{Has-fresh}
use lowlevel_academy.Server.Loop.Sound.{IsSound}
use lowlevel_academy.Server.Loop.Walk.{IsReadable}
use lowlevel_academy.Server.Loop.Total.{IsPolled, round_total}
use lowlevel_academy.Server.Loop.Serving.{
  IsRound, entered, served, IsKept, start_loop-IsKept, Opens, server_durable,
}
use lowlevel_academy.Cstring.{atoi}
use lowlevel_academy.Server.Files.{Entry, absent}
use lowlevel_academy.Server.Startup.{main, poll_loop}
use lowlevel_academy.Server.Startup.Restart.{memory}
use lowlevel_academy.Server.Loop.Life.{new_db, new_file, make, Restarts, life_lem}
use lowlevel_academy.Tests.Samples.{no_employees, no_employees-IsValid, empty_file}

abbrev table : List ClientState
table = replicate 256 fresh_client

abbrev begun : Loop
begun = start_loop table no_employees (some empty_file)

begun-IsKept : IsKept begun start_fds
begun-IsKept =
    start_loop-IsKept table no_employees empty_file (length-replicate 256 fresh_client)
      no_employees-IsValid (inr (refl, refl))

abbrev all_up : Sockets
all_up = record { opened = true; reusable = true; bound = true; listening = true }

begun_enter : enter_loop all_up table no_employees (some empty_file) ≡ some begun
unfolding enter_loop
begun_enter = refl

abbrev connecting : Events
connecting = record { accepted = some (some 9); listener_error = false; revents = []; n_events = 1 }

connecting-IsPolled : IsPolled connecting begun
unfolding start_loop
connecting-IsPolled = record {
  reported = refl;
  numbered = refl;
  fresh = λ d q. rw (init_clients_lem table (length-replicate 256 fresh_client)) (Has-fresh 256 d);
}

abbrev letters : Option ℕ → List ℕ
letters fd = b'A' ∷ []

connecting-IsReadable : IsReadable connecting
connecting-IsReadable = record { listener = λ q. refl; others = tt }

connecting-IsRound : IsRound letters connecting begun
unfolding start_loop
connecting-IsRound = record {
  short = λ fd. omega arith;
  polled = connecting-IsPolled;
  readable = connecting-IsReadable;
  room = omega arith;
}

round_total_example :
    (l' : Loop) × (round little true letters connecting start_fds begun ≡ some l')
    × IsSound l'
    × IsCounted l'
round_total_example =
    round_total little letters connecting start_fds begun connecting-IsRound.short begun-IsKept.size
      begun-IsKept.no_holes begun-IsKept.sound begun-IsKept.counted connecting-IsPolled
      connecting-IsReadable connecting-IsRound.room

first_round :
    (l' : Loop) × (round little true letters connecting start_fds begun ≡ some l')
    × IsSound l'
    × IsCounted l'
first_round =
    round_total little letters connecting start_fds begun connecting-IsRound.short begun-IsKept.size
      begun-IsKept.no_holes begun-IsKept.sound begun-IsKept.counted connecting-IsPolled
      connecting-IsReadable connecting-IsRound.room

server_durable_example :
    (g : File) × (first_round.0.disk ≡ some g)
    × (Opens big g.bytes first_round.0.db.employees
        ⊎ ((g.bytes ≡ []) × (first_round.0.db.employees ≡ [])))
server_durable_example =
    server_durable little big table no_employees empty_file first_round.0
      (next_fds connecting start_fds begun) (length-replicate 256 fresh_client) no_employees-IsValid
      (inr (refl, refl))
      (served letters connecting (entered all_up begun_enter) connecting-IsRound first_round.1)

abbrev files : List ℕ → Entry
files path = absent true

-- Port 7.
port_given : atoi (b'7' ∷ []) % 65536 ≢ 0
unfolding atoi
port_given = omega arith

life_lem_example :
    (main little memory files (make (b'A' ∷ []) (b'7' ∷ []))
      ≡ poll_loop (atoi (b'7' ∷ []) % 65536) new_db (some new_file))
    × ((g : File) × (first_round.0.disk ≡ some g)
        × Restarts big (b'A' ∷ []) (b'7' ∷ []) g first_round.0.db.employees)
life_lem_example =
    life_lem little big files (b'A' ∷ []) (b'7' ∷ []) table first_round.0
      (next_fds connecting start_fds begun) refl port_given (length-replicate 256 fresh_client)
      (served letters connecting (entered all_up begun_enter) connecting-IsRound first_round.1)
