-- ===== src/Server/Loop/Serving.antt =====
-- The server over any number of rounds.
use lowlevel_academy.Prelude.{
  ◌&&◌, zero, suc, Bool-cases, length-replicate, replicate, ℕ, ◌+◌, ◌≡◌, ◌<◌, refl, subst, ◌∙◌, inl,
  inr, true, false, List, [], Option, none, some, arith, length, ◌⊎◌,
}
use lowlevel_academy.Host.{Endian}
use lowlevel_academy.Database.{Fd, Employee, File}
use lowlevel_academy.Database.Add.{Db}
use lowlevel_academy.Database.Format.{file_image, AllRecords, IsValid}
use lowlevel_academy.Database.Load.Reopen.{
  header_of, validate_db_header-image, read_employees-image,
}
use lowlevel_academy.Server.{ClientState}
use lowlevel_academy.Server.Slots.Search.{init_clients_lem}
use lowlevel_academy.Server.Files.{regular, open_db_file}
use lowlevel_academy.Server.Startup.{open_database}
use lowlevel_academy.Server.Startup.Restart.{memory}
use lowlevel_academy.Server.Loop.{
  no_revents, Sockets, enter_loop, list_fds, next_fds, start_fds, PollFd, Loop, Events, round,
  start_loop,
}
use lowlevel_academy.Server.Loop.Counting.{list_fds-AllFds, poll_fds-AllFds, IsCounted, AllFds}
use lowlevel_academy.Server.Loop.Change.{fresh-IsTable}
use lowlevel_academy.Server.Loop.Table.{used-fresh}
use lowlevel_academy.Server.Loop.Ready.{length-list_fds, length-poll_fds, pollin_count}
use lowlevel_academy.Server.Loop.Sound.{InStep, IsSound}
use lowlevel_academy.Server.Loop.Walk.{IsReadable}
use lowlevel_academy.Server.Loop.Total.{IsPolled, round_total}

-- What the kernel and the clients bring in a round, as `round_total` takes it.
pub record IsRound (reads : Option ℕ → List ℕ) (ev : Events) (l : Loop) : Type 0 where
  pub short : (fd : Option ℕ) → length (reads fd) < 4096
  pub polled : IsPolled ev l
  pub readable : IsReadable ev
  pub room : l.db.header.count + pollin_count ev.revents < 65536

-- The states of `poll_loop` where `while (1)` begins, with the entries of `poll`, when `realloc` finds
-- memory: the first one, and those behind rounds of that kind.
pub data Serving (e : Endian) (cs : List ClientState) (db : Db) (disk : Fd)
    : Loop → List PollFd → Type 0 where
  entered :
      {l : Loop} (s : Sockets) → enter_loop s cs db disk ≡ some l → Serving e cs db disk l start_fds
  served :
      {l l' : Loop} {fds : List PollFd} (reads : Option ℕ → List ℕ) (ev : Events)
      → Serving e cs db disk l fds
      → IsRound reads ev l
      → round e true reads ev fds l ≡ some l'
      → Serving e cs db disk l' (next_fds ev fds l)

-- What holds in these states.
pub record IsKept (l : Loop) (fds : List PollFd) : Type 0 where
  pub sound : IsSound l
  pub counted : IsCounted l
  pub size : length fds ≡ 256
  pub no_holes : AllFds fds

abbrev zeroed_entry : PollFd
zeroed_entry = record { fd = some 0; revents = no_revents }

zeroed-AllFds : (n : ℕ) → AllFds (replicate n zeroed_entry)
zeroed-AllFds zero = tt
zeroed-AllFds (suc n) = ((λ q. cc), zeroed-AllFds n)

pub start_loop-IsKept :
    (cs : List ClientState) (db : Db) (f : File)
    → length cs ≡ 256
    → IsValid db
    → InStep f.bytes db.employees
    → IsKept (start_loop cs db (some f)) start_fds
unfolding start_loop start_fds
start_loop-IsKept cs db f h v i = rw (init_clients_lem cs h) (record {
  sound = record { table = fresh-IsTable; valid = v; file = f; on_disk = refl; in_step = i };
  counted = omega (arith, used-fresh 256);
  size = length-replicate 256 zeroed_entry;
  no_holes = zeroed-AllFds 256;
})

enter_loop-IsKept :
    (s : Sockets) (cs : List ClientState) (db : Db) (f : File) (l : Loop)
    → length cs ≡ 256
    → IsValid db
    → InStep f.bytes db.employees
    → enter_loop s cs db (some f) ≡ some l
    → IsKept l start_fds
unfolding enter_loop
enter_loop-IsKept s cs db f l h v i p =
    elim (Bool-cases (s.opened && s.reusable && s.bound && s.listening)) [
      | inl q ↦
          let same : start_loop cs db (some f) ≡ l = ground (arith, p, q) in
          subst (λ z. IsKept z start_fds) same (start_loop-IsKept cs db f h v i)
      | inr q ↦ absurd (ground (arith, p, q))
    ]

abbrev AllKept : List PollFd → Option Loop → Type 0
AllKept fds none = Unit {0}
AllKept fds (some l) = IsKept l fds

round-AllKept :
    (e : Endian) (reads : Option ℕ → List ℕ) (ev : Events) (l : Loop) (fds : List PollFd)
    → IsKept l fds
    → IsRound reads ev l
    → AllKept (next_fds ev fds l) (round e true reads ev fds l)
unfolding next_fds
round-AllKept e reads ev l fds k w =
    let (l', q, v, c) =
      round_total e reads ev fds l w.short k.size k.no_holes k.sound k.counted w.polled w.readable
        w.room in
    rw q (record {
      sound = v;
      counted = c;
      size =
          length-poll_fds ev.revents (list_fds l.clients fds)
          ∙ length-list_fds l.clients fds
          ∙ k.size;
      no_holes = poll_fds-AllFds ev.revents _ (list_fds-AllFds l.clients fds k.no_holes);
    })

Serving-IsKept :
    {e : Endian} {cs : List ClientState} {db : Db} {f : File} {l : Loop} {fds : List PollFd}
    → length cs ≡ 256
    → IsValid db
    → InStep f.bytes db.employees
    → Serving e cs db (some f) l fds
    → IsKept l fds
Serving-IsKept {cs = cs} {db = db} {f = f} {l = l} h v i (entered s p) =
    enter_loop-IsKept s cs db f l h v i p
Serving-IsKept {e = e} h v i (served {l = m} {fds = fds} reads ev g w p) =
    subst (AllKept (next_fds ev fds m)) p
      (round-AllKept e reads ev m fds (Serving-IsKept h v i g) w)

-- A server that is started on these bytes has these employees.
abbrev pub Opens : Endian → List ℕ → List Employee → Type 0
Opens e bs es =
    (g : File) × (open_database e memory false (regular bs)
      ≡ some (record { header = header_of (length es); employees = es }, some g))

image-Opens :
    (e : Endian) (es : List Employee)
    → AllRecords es
    → length es < 65536
    → Opens e (file_image es) es
unfolding open_database open_db_file
image-Opens e es v fit = (
  record { bytes = file_image es; pos = length (file_image es) },
  rw (validate_db_header-image e es v fit, read_employees-image e es v) refl,
)

-- A server with a table of 256 slots and a valid database, whose file is in step with it, as after
-- each start, keeps it so over any number of rounds: whenever it waits, a server that is started on its file, on any host, has the employees
-- that it has. The one exception is a new database until an employee is added: it has none, and its
-- file is empty. In each round `poll` and `accept` keep their promises, `poll` reports no error of a
-- descriptor without POLLIN (which it does not promise), no read brings 4096 bytes, there is room for
-- an employee from each client that is ready, and `realloc` finds memory.
pub server_durable :
    (e other : Endian) (cs : List ClientState) (db : Db) (f : File) (l : Loop) (fds : List PollFd)
    → length cs ≡ 256
    → IsValid db
    → InStep f.bytes db.employees
    → Serving e cs db (some f) l fds
    → (g : File) × (l.disk ≡ some g)
      × (Opens other g.bytes l.db.employees ⊎ ((g.bytes ≡ []) × (l.db.employees ≡ [])))
server_durable e other cs db f l fds h v i s =
    let k = (Serving-IsKept h v i s).sound in
    (
      k.file,
      k.on_disk,
      elim k.in_step [
        | inl p ↦ inl (
            rw p (
              image-Opens other l.db.employees k.valid.records
                (omega (arith, k.valid.counted, k.valid.count_fits))))
        | inr p ↦ inr p
      ],
    )
