-- ===== src/Server/Loop/Sound.antt =====
-- A round of the server keeps the table, the database and the file in order, and does not fault.
use lowlevel_academy.Prelude.{
  ◌⊎◌, ℕ, ◌+◌, ◌*◌, ◌≡◌, ◌≢◌, ◌<◌, ◌≤◌, refl, ap, sym, subst, ◌∙◌, inl, inr, true, List, [], ◌∷◌,
  Option, none, some, arith, length, length-append, get_elem?, drop,
}
use lowlevel_academy.Host.{Endian}
use lowlevel_academy.Memory.{write_bytes}
use lowlevel_academy.Database.{Employee, File, Fd}
use lowlevel_academy.Database.Add.{Db}
use lowlevel_academy.Database.Format.{file_image, AllRecords, IsValid, length-file_image}
use lowlevel_academy.Server.{ClientState}
use lowlevel_academy.Server.Slots.{find_free_slot, find_slot_by_fd}
use lowlevel_academy.Server.Slots.Search.{IsFirst, find_slot_by_fd_lem, find_free_slot_lem}
use lowlevel_academy.Server.Fsm.{Handled, handle_client_fsm}
use lowlevel_academy.Server.Fsm.Steps.{handle_client_fsm-Moves}
use lowlevel_academy.Server.Fsm.Total.{Kept, Good, stored, handle_client_fsm-read}
use lowlevel_academy.Server.Loop.{
  Loop, take_slot, place_client, accept_client, drop_slot, drop_client, printed, finish_message,
  serve_message, serve_client,
}
use lowlevel_academy.Server.Loop.Change.{
  IsTable, update-IsTable, same_fd-IsTable, others-Has, same_fd-Has, first-Taken,
}
use lowlevel_academy.Server.Loop.Table.{Has, AllEnded-get, IsFirst-Has}

-- The file is the image of the employees, or there are none and it is still empty, as `-n` made it.
abbrev pub InStep : List ℕ → List Employee → Type 0
InStep bs es = (bs ≡ file_image es) ⊎ ((bs ≡ []) × (es ≡ []))

-- What holds between two rounds, but for `nfds`.
pub record IsSound (l : Loop) : Type 0 where
  pub table : IsTable l.clients
  pub valid : IsValid l.db
  pub file : File
  pub on_disk : l.disk ≡ some file
  pub in_step : InStep file.bytes l.db.employees

fits :
    (bs : List ℕ) (es : List Employee)
    → AllRecords es
    → InStep bs es
    → length bs ≤ 12 + 516 * length es
fits bs es v (inl p) = omega (arith, ap length p, length-file_image es v)
fits bs es v (inr (p, q)) = omega (arith, ap length p)

-- The slot of `d` was served: nothing else is lost, and one employee at most was added.
pub record Served (d : ℕ) (l l' : Loop) : Type 0 where
  pub sound : IsSound l'
  pub others : (x : ℕ) → x ≢ d → Has x l.clients → Has x l'.clients
  pub grown : l'.db.header.count ≤ l.db.header.count + 1

abbrev pub Serves : ℕ → Loop → Option Loop → Type 0
Serves d l o = (l' : Loop) × (o ≡ some l') × Served d l l'

drop_client-Serves :
    (d r : ℕ) (c : ClientState) (l : Loop)
    → get_elem? l.clients r ≡ some c
    → c.fd ≡ some d
    → IsSound l
    → Serves d l (some (drop_client (some d) r l))
unfolding drop_client drop_slot
drop_client-Serves d r c l g p v = (
  _,
  refl,
  record {
    sound = record {
      table = update-IsTable drop_slot l.clients r c g refl (λ x q. cc) v.table;
      valid = v.valid;
      file = v.file;
      on_disk = v.on_disk;
      in_step = v.in_step;
    };
    others = λ x n h. others-Has drop_slot l.clients r c g d x p n h;
    grown = omega arith;
  },
)

-- What the handler leaves on the disk.
record Stored (db : Db) (disk : Fd) : Type 0 where
  file : File
  on_disk : disk ≡ some file
  in_step : InStep file.bytes db.employees

Kept-Stored :
    (db : Db) (f : File) (db' : Db) (disk : Fd)
    → InStep f.bytes db.employees
    → Kept db f db' disk
    → Stored db' disk
Kept-Stored db f db' disk h (inl (p, q)) = record {
  file = f;
  on_disk = q;
  in_step = subst (InStep f.bytes) (sym p) h;
}
Kept-Stored db f db' disk h (inr (x, p, q)) = record {
  file = stored db'.employees;
  on_disk = q;
  in_step = inl refl;
}

Kept-grown :
    (db : Db) (f : File) (db' : Db) (disk : Fd)
    → IsValid db
    → IsValid db'
    → Kept db f db' disk
    → db'.header.count ≤ db.header.count + 1
Kept-grown db f db' disk v w (inl (p, q)) = omega (arith, ap length p, v.counted, w.counted)
Kept-grown db f db' disk v w (inr (x, p, q)) =
    omega (arith, ap length p, length-append db.employees (x ∷ []), v.counted, w.counted)

finish_message-Serves :
    (d i : ℕ) (c c' : ClientState) (l : Loop) (f : File) (r : Handled)
    → get_elem? l.clients i ≡ some c
    → r.client.fd ≡ c.fd
    → drop 4095 r.client.buffer ≡ 0 ∷ []
    → IsSound l
    → InStep f.bytes l.db.employees
    → Good l.db f c' r
    → Serves d l (finish_message i l (some r))
unfolding finish_message
finish_message-Serves d i c c' l f r g m e v h w =
    let s = Kept-Stored l.db f r.db r.disk h w.kept in
    (
      _,
      refl,
      record {
        sound = record {
          table = same_fd-IsTable (λ _. r.client) l.clients i c g e m v.table;
          valid = w.valid;
          file = s.file;
          on_disk = s.on_disk;
          in_step = s.in_step;
        };
        others = λ x n h. same_fd-Has (λ _. r.client) l.clients i c g x m h;
        grown = Kept-grown l.db f r.db r.disk v.valid w.valid w.kept;
      },
    )

module _ (e : Endian) (l : Loop) (v : IsSound l) (room : l.db.header.count < 65535) where
  serve_message-Serves :
      (d i : ℕ) (bytes : List ℕ) (c : ClientState)
      → length bytes < 4096
      → get_elem? l.clients i ≡ some c
      → Serves d l (serve_message e true bytes i (get_elem? l.clients i) l)
  unfolding serve_message printed
  serve_message-Serves d i bytes c short g =
      let c' : ClientState = record c { buffer = write_bytes 0 bytes c.buffer } in
      let old = AllEnded-get l.clients i c v.table.slots g in
      let (r, k, w, tail, (t, p)) =
        handle_client_fsm-read e l.db v.file c bytes v.valid
          (fits v.file.bytes l.db.employees v.valid.records v.in_step) room old short in
      let k' : handle_client_fsm e true l.db l.disk c' ≡ some r =
        ap (λ z. handle_client_fsm e true l.db z c') v.on_disk ∙ k in
      let m = handle_client_fsm-Moves e true l.db l.disk c' r k' in
      rw (g, p, k') (finish_message-Serves d i c c' l v.file r g m.0 tail v v.in_step w)

  -- The client of a descriptor that the table has is served, whatever it sent.
  pub serve_client-Serves :
      (d : ℕ) (bytes : List ℕ)
      → length bytes < 4096
      → Has d l.clients
      → Serves d l (serve_client e true bytes (some d) (find_slot_by_fd l.clients (some d)) l)
  unfolding serve_client
  serve_client-Serves d bytes short h =
      let (r, c, p, g, q) =
        IsFirst-Has d l.clients (find_slot_by_fd l.clients (some d)) h
          (find_slot_by_fd_lem l.clients (some d)) in
      rw p (read bytes r c g q short)
    where
      read :
          (bs : List ℕ) (r : ℕ) (c : ClientState)
          → get_elem? l.clients r ≡ some c
          → c.fd ≡ some d
          → length bs < 4096
          → Serves d l (serve_client e true bs (some d) (some r) l)
      read [] r c g q k = drop_client-Serves d r c l g q v
      read (x ∷ bs) r c g q k = serve_message-Serves d r (x ∷ bs) c k g

-- A new client, of a descriptor that the table does not have, takes a slot or is turned away.
pub record Accepted (l l' : Loop) : Type 0 where
  pub sound : IsSound l'
  pub others : (x : ℕ) → Has x l.clients → Has x l'.clients
  pub same_db : l'.db ≡ l.db

place_client-Accepted :
    (d : ℕ) (l : Loop) (o : Option ℕ)
    → ¬ Has d l.clients
    → IsSound l
    → IsFirst none 0 l.clients o
    → Accepted l (place_client d o l)
unfolding place_client take_slot
place_client-Accepted d l none n v f = record {
  sound = record {
    table = v.table;
    valid = v.valid;
    file = v.file;
    on_disk = v.on_disk;
    in_step = v.in_step;
  };
  others = λ x h. h;
  same_db = refl;
}
place_client-Accepted d l (some r) n v f =
    let t = first-Taken d (take_slot d) l.clients r (λ c. refl) (λ c. refl) n f v.table in
    record {
      sound = record {
        table = t.table;
        valid = v.valid;
        file = v.file;
        on_disk = v.on_disk;
        in_step = v.in_step;
      };
      others = t.others;
      same_db = refl;
    }

pub accept_client-Accepted :
    (d : ℕ) (l : Loop) → ¬ Has d l.clients → IsSound l → Accepted l (accept_client d l)
unfolding accept_client
accept_client-Accepted d l n v =
    place_client-Accepted d l (find_free_slot l.clients) n v (find_free_slot_lem l.clients)
