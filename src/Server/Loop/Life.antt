-- ===== src/Server/Loop/Life.antt =====
-- The life of a server: started on a new file, serving, and started again on what it left.
use lowlevel_academy.Prelude.{
  ap, ◌∙◌, ◌⊎◌, length, none, ℕ, ◌%◌, ◌≡◌, ◌≢◌, refl, inl, inr, true, false, List, [], ◌∷◌, some,
  arith, ◌==◌, Bool-cases,
}
use lowlevel_academy.Host.{Endian}
use lowlevel_academy.Cstring.{atoi}
use lowlevel_academy.Database.{Employee, File, read_data, read_file}
use lowlevel_academy.Database.Add.{Db}
use lowlevel_academy.Database.Format.{IsValid}
use lowlevel_academy.Database.Load.{read_employees, create_db_header, validate_db_header}
use lowlevel_academy.Database.Load.Reopen.{header_of}
use lowlevel_academy.Server.{ClientState}
use lowlevel_academy.Server.Files.{Entry, absent, regular, create_db_file, open_db_file}
use lowlevel_academy.Server.Startup.{
  opt_n, opt_f, opt_p, Opt, open_database, serve, run_args, parse_args, poll_loop, return_minus_one,
  main,
}
use lowlevel_academy.Server.Startup.Restart.{memory}
use lowlevel_academy.Server.Loop.{PollFd, Loop}
use lowlevel_academy.Server.Loop.Serving.{Serving, Opens, server_durable}

abbrev pub new_db : Db
new_db = record { header = header_of 0; employees = [] }

abbrev pub new_file : File
new_file = record { bytes = []; pos = 0 }

new_db-IsValid : IsValid new_db
new_db-IsValid = record {
  magic = refl;
  version = refl;
  counted = refl;
  count_fits = omega arith;
  records = tt;
}

-- The command lines -n -f path -p port, and without -n.
abbrev pub make : (path port : List ℕ) → List Opt
make path port = opt_n ∷ opt_f path ∷ opt_p port ∷ []

abbrev pub reopen : (path port : List ℕ) → List Opt
reopen path port = opt_f path ∷ opt_p port ∷ []

make_database :
    (e : Endian) → open_database e memory true (absent true) ≡ some (new_db, some new_file)
unfolding open_database create_db_file create_db_header read_employees read_data read_file
make_database e = refl

empty_refused : (e : Endian) → open_database e memory false (regular []) ≡ none
unfolding open_database open_db_file validate_db_header read_data read_file
empty_refused e = refl

main-make :
    (e : Endian) (files : List ℕ → Entry) (path port : List ℕ)
    → atoi port % 65536 ≢ 0
    → main e memory files (make path port)
      ≡ serve (atoi port % 65536) (open_database e memory true (files path))
unfolding main run_args parse_args
main-make e files path port h = elim (Bool-cases (atoi port % 65536 == 0)) [
  | inl p ↦ absurd (ground (arith, p))
  | inr p ↦ rw p refl
]

main-reopen :
    (e : Endian) (files : List ℕ → Entry) (path port : List ℕ)
    → atoi port % 65536 ≢ 0
    → main e memory files (reopen path port)
      ≡ serve (atoi port % 65536) (open_database e memory false (files path))
unfolding main run_args parse_args
main-reopen e files path port h = elim (Bool-cases (atoi port % 65536 == 0)) [
  | inl p ↦ absurd (ground (arith, p))
  | inr p ↦ rw p refl
]

-- What a server that is started again finds: the employees, or an empty file, which it refuses.
abbrev pub Restarts : Endian → (path port : List ℕ) → File → List Employee → Type 0
Restarts e path port g es =
    ((h : File) × (main e memory (λ _. regular g.bytes) (reopen path port)
        ≡ poll_loop (atoi port % 65536) (record { header = header_of (length es); employees = es })
            (some h)))
    ⊎ ((es ≡ []) × (main e memory (λ _. regular g.bytes) (reopen path port) ≡ return_minus_one))

restart-Restarts :
    (e : Endian) (path port : List ℕ) (g : File) (es : List Employee)
    → atoi port % 65536 ≢ 0
    → Opens e g.bytes es ⊎ ((g.bytes ≡ []) × (es ≡ []))
    → Restarts e path port g es
unfolding serve
restart-Restarts e path port g es h (inl (f, p)) =
    inl (f, main-reopen e (λ _. regular g.bytes) path port h ∙ ap (serve (atoi port % 65536)) p)
restart-Restarts e path port g es h (inr (p, q)) =
    let refused : open_database e memory false (regular g.bytes) ≡ none =
      ap (λ bs. open_database e memory false (regular bs)) p ∙ empty_refused e in
    inr
      (q, main-reopen e (λ _. regular g.bytes) path port h ∙ ap (serve (atoi port % 65536)) refused)

-- A server that is run with -n, a path where there is no file yet and a port that is not 0 enters its
-- loop with an empty database and an empty file. Wherever any number of rounds takes it from there,
-- what it leaves can be started again, on any host: the server then enters its loop with the
-- employees that the first one had; only while there are none does it refuse the file, which is still
-- empty, and return -1. `calloc` and `realloc` find memory, and in each round `poll` and `accept` keep
-- their promises, `poll` reports no error of a descriptor without POLLIN (which it does not promise),
-- no read brings 4096 bytes, and there is room for an employee from each client that is ready.
pub life_lem :
    (e other : Endian) (files : List ℕ → Entry) (path port : List ℕ) (cs : List ClientState)
    (l : Loop) (fds : List PollFd)
    → files path ≡ absent true
    → atoi port % 65536 ≢ 0
    → length cs ≡ 256
    → Serving e cs new_db (some new_file) l fds
    → (main e memory files (make path port) ≡ poll_loop (atoi port % 65536) new_db (some new_file))
      × ((g : File) × (l.disk ≡ some g) × Restarts other path port g l.db.employees)
unfolding serve
life_lem e other files path port cs l fds free h size s =
    let (g, p, q) =
      server_durable e other cs new_db new_file l fds size new_db-IsValid (inr (refl, refl)) s in
    let opened = ap (open_database e memory true) free ∙ make_database e in
    (
      main-make e files path port h ∙ ap (serve (atoi port % 65536)) opened,
      (g, p, restart-Restarts other path port g l.db.employees h q),
    )
