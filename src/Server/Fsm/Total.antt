-- ===== src/Server/Fsm/Total.antt =====
-- `handle_client_fsm` never faults on a valid database, and keeps it valid and on disk.
use lowlevel_academy.Prelude.{
  not, if_both, ℕ, ◌+◌, ◌*◌, ◌≡◌, ◌≢◌, ◌<◌, ◌≤◌, ◌⊎◌, inl, inr, refl, ◌∙◌, true, ◌&&◌, ◌||◌, not,
  if_both, List, [], ◌∷◌, ◌++◌, take, drop, length, arith, Option, none, some, length-append,
  length-drop, ap, ◌==◌, Bool-cases,
}
use lowlevel_academy.Host.{Endian}
use lowlevel_academy.Memory.{put_over-all, write_bytes, drop-write_bytes}
use lowlevel_academy.Cstring.{c_string}
use lowlevel_academy.Cstring.Copy.{c_string-drop}
use lowlevel_academy.Database.{Employee, File, Fd}
use lowlevel_academy.Database.Add.{Db, Added, add_employee}
use lowlevel_academy.Database.Add.Outcome.{appended, Outcome, add_employee-Outcome}
use lowlevel_academy.Database.Add.Text.{appended-IsValid}
use lowlevel_academy.Database.Save.{output_file}
use lowlevel_academy.Database.Save.Image.{left_header, output_file_lem}
use lowlevel_academy.Database.Format.{file_image, IsValid, length-file_image}
use lowlevel_academy.Protocol.{get_proto, get_type, get_length, proto_ntoh, header_ntoh}
use lowlevel_academy.Server.{State, state_hello, state_msg, ClientState}
use lowlevel_academy.Server.Fsm.{
  fsm_reply_hello, Reply, Handled, reply_header, answer, after_add, add_to_buffer, add_text,
  handle_add, handle_hello, handle_msg, dispatch, handle_client_fsm, fsm_reply_add,
  fsm_reply_add_error, fsm_reply_hello_error,
}
use lowlevel_academy.Server.Fsm.Tail.{
  drop-drop, drop-header_ntoh, Keeps, Keeps-trans, Keeps-header_ntoh, Keeps-proto_ntoh,
  Keeps-reply_header, Keeps-fsm_reply_hello, Keeps-fsm_reply_list, Keeps-text,
}

-- The file holds the image of these employees, and the offset is behind it.
abbrev pub stored : List Employee → File
stored es = record { bytes = file_image es; pos = length (file_image es) }

-- Either nothing was added and the file is as it was, or one employee was added, and the file holds
-- the image of all of them.
abbrev pub Kept : Db → File → Db → Fd → Type 0
Kept db f db' disk =
    ((db'.employees ≡ db.employees) × (disk ≡ some f))
    ⊎ ((x : Employee) × (db'.employees ≡ db.employees ++ x ∷ [])
        × (disk ≡ some (stored db'.employees)))

pub record Good (db : Db) (f : File) (c : ClientState) (r : Handled) : Type 0 where
  pub valid : IsValid r.db
  pub buffer : Keeps c.buffer r.client.buffer
  pub kept : Kept db f r.db r.disk

abbrev Returns : Db → File → ClientState → Option Handled → Type 0
Returns db f c o = (r : Handled) × (o ≡ some r) × Good db f c r

pub left_header-IsValid :
    (e : Endian) (db : Db)
    → IsValid db
    → IsValid (record { header = left_header e db.header; employees = db.employees })
left_header-IsValid e db v = record {
  magic = v.magic;
  version = v.version;
  counted = v.counted;
  count_fits = v.count_fits;
  records = v.records;
}

-- A file that is no longer than the image holds just the image afterwards.
pub output_file-stored :
    (e : Endian) (f : File) (db : Db)
    → IsValid db
    → length f.bytes ≤ 12 + 516 * length db.employees
    → output_file e (some f) db
      ≡ some (record {
        db = record { header = left_header e db.header; employees = db.employees };
        fd = some (stored db.employees);
      })
output_file-stored e f db v h = rw (
  output_file_lem e f db v,
  put_over-all (file_image db.employees) f.bytes
      (omega (arith, length-file_image db.employees v.records)),
)

module _ (e : Endian) (db : Db) (f : File) (c : ClientState) (v : IsValid db)
    (fits : length f.bytes ≤ 12 + 516 * length db.employees) where
  answer-Returns :
      (s : State) (r : Reply)
      → Keeps c.buffer r.buffer
      → Returns db f c (some (answer db (some f) c s r))
  unfolding answer
  answer-Returns s r h = (_, refl, record { valid = v; buffer = h; kept = inl (refl, refl) })

  after_add-Returns :
      (room : db.header.count < 65535) (buf text : List ℕ) (r : Added)
      → Keeps c.buffer buf
      → length buf ≡ 4096
      → Outcome db text (some r)
      → Returns db f c (after_add e (some f) c buf r)
  unfolding after_add fsm_reply_add fsm_reply_add_error
  after_add-Returns room buf text r k h (t, inl (p, q)) =
      rw (Returns, p, q)
        (answer-Returns c.state (reply_header e 0 buf)
          (Keeps-trans c.buffer buf _ k (Keeps-reply_header e 0 buf h)))
  after_add-Returns room buf text r k h (t, inr (x, p, w, q)) =
      let valid : IsValid (appended db x) = appended-IsValid db x v room w in
      let longer : length f.bytes ≤ 12 + 516 * length (db.employees ++ x ∷ []) =
        omega (arith, length-append db.employees (x ∷ [])) in
      rw (Returns, p, q, output_file-stored e f (appended db x) valid longer)
        (
          _,
          refl,
          record {
            valid = left_header-IsValid e (appended db x) valid;
            buffer = Keeps-trans c.buffer buf _ k (Keeps-reply_header e 6 buf h);
            kept = inr (x, refl, refl);
          },
        )

  module _ (room : db.header.count < 65535) (buf : List ℕ) (k : Keeps c.buffer buf)
      (h : length buf ≡ 4096) where
    add_to_buffer-Returns :
        (text behind : List ℕ) (o : Option Added)
        → c_string (drop 8 buf) ≡ some (text, behind)
        → Outcome db text o
        → Returns db f c (add_to_buffer e (some f) c buf behind o)
    unfolding add_to_buffer
    add_to_buffer-Returns text behind none p out = absurd out
    add_to_buffer-Returns text behind (some r) p out =
        let w = Keeps-text buf text r.text behind h p out.0 in
        after_add-Returns room (take 8 buf ++ (r.text ++ 0 ∷ behind)) text r
          (Keeps-trans c.buffer buf _ k w) (w.size ∙ h) out

    handle_add-Returns :
        (o : Option (List ℕ × List ℕ))
        → c_string (drop 8 buf) ≡ o
        → o ≢ none
        → Returns db f c (add_text e true db (some f) c buf o)
    unfolding add_text
    handle_add-Returns none p ne = absurd (ne refl)
    handle_add-Returns (some (text, behind)) p ne =
        add_to_buffer-Returns text behind (add_employee true db text) p
          (add_employee-Outcome db text v.counted room)

    handle_msg-Returns :
        c_string (drop 8 buf) ≢ none → Returns db f c (handle_msg e true db (some f) c buf)
    unfolding handle_msg handle_add
    handle_msg-Returns ne = elim (Bool-cases ((get_type e buf == 5) && (get_length e buf == 1))) [
      | inl p ↦ rw (Returns, p) (handle_add-Returns (c_string (drop 8 buf)) refl ne)
      | inr p ↦ elim (Bool-cases (get_type e buf == 3)) [
        | inl q ↦
            let (r, l, w) = Keeps-fsm_reply_list e db buf v.counted h in
            rw (Returns, p, q, l) (answer-Returns c.state r (Keeps-trans c.buffer buf _ k w))
        | inr q ↦ rw (Returns, p, q) (answer-Returns c.state (record { buffer = buf; sent = [] }) k)
      ]
    ]

    handle_hello-Returns : Returns db f c (some (handle_hello e db (some f) c buf))
    unfolding handle_hello fsm_reply_hello_error
    handle_hello-Returns =
        let P : Handled → Type 0 = λ r. Returns db f c (some r) in
        let w = Keeps-proto_ntoh e buf h in
        let k' = Keeps-trans c.buffer buf _ k w in
        let b : List ℕ = proto_ntoh e buf in
        if_both P (not (get_type e buf == 1) || not (get_length e buf == 1))
          (answer-Returns c.state (reply_header e 0 buf)
            (Keeps-trans c.buffer buf _ k (Keeps-reply_header e 0 buf h)))
          (if_both P (get_proto e b == 100)
            (answer-Returns state_msg (fsm_reply_hello e b)
              (Keeps-trans c.buffer b _ k' (Keeps-fsm_reply_hello e b (w.size ∙ h))))
            (answer-Returns c.state (reply_header e 0 b)
              (Keeps-trans c.buffer b _ k' (Keeps-reply_header e 0 b (w.size ∙ h)))))

    dispatch-Returns :
        (s : State)
        → c_string (drop 8 buf) ≢ none
        → Returns db f c (dispatch e true db (some f) c buf s)
    unfolding dispatch
    dispatch-Returns state_hello ne = handle_hello-Returns
    dispatch-Returns state_msg ne = handle_msg-Returns ne
    dispatch-Returns _ ne = answer-Returns c.state (record { buffer = buf; sent = [] }) k

-- On a database that is valid and has room, whose file is no longer than its image, every message
-- with a NUL behind its header is handled without a fault, in every state of the client: the
-- database stays valid, the buffer keeps its 4096 bytes and the last of them, and either nothing is
-- added and the file is as it was, or one employee is, and the file holds the image of all of them.
pub handle_client_fsm_total :
    (e : Endian) (db : Db) (f : File) (c : ClientState)
    → IsValid db
    → length f.bytes ≤ 12 + 516 * length db.employees
    → db.header.count < 65535
    → length c.buffer ≡ 4096
    → c_string (drop 8 c.buffer) ≢ none
    → (r : Handled) × (handle_client_fsm e true db (some f) c ≡ some r) × Good db f c r
unfolding handle_client_fsm
handle_client_fsm_total e db f c v fits room h ne =
    let k = Keeps-header_ntoh e c.buffer h in
    dispatch-Returns e db f c v fits room (header_ntoh e c.buffer) k (k.size ∙ h) c.state
      (rw (drop-header_ntoh e c.buffer (omega arith)) ne)

pub length-ended : (b : List ℕ) → drop 4095 b ≡ 0 ∷ [] → length b ≡ 4096
length-ended b h = omega (arith, length-drop 4095 b, ap length h)

-- A message that is read over a buffer with a NUL in its last byte is handled, and leaves it there.
pub handle_client_fsm-read :
    (e : Endian) (db : Db) (f : File) (c : ClientState) (bytes : List ℕ)
    → IsValid db
    → length f.bytes ≤ 12 + 516 * length db.employees
    → db.header.count < 65535
    → drop 4095 c.buffer ≡ 0 ∷ []
    → length bytes < 4096
    → let c' : ClientState = record c { buffer = write_bytes 0 bytes c.buffer } in
      (r : Handled) × (handle_client_fsm e true db (some f) c' ≡ some r)
      × Good db f c' r
      × (drop 4095 r.client.buffer ≡ 0 ∷ [])
      × ((t : List ℕ × List ℕ) × (c_string c'.buffer ≡ some t))
handle_client_fsm-read e db f c bytes v fits room h short =
    let b : List ℕ = write_bytes 0 bytes c.buffer in
    let size = length-ended c.buffer h in
    let tail : drop 4095 b ≡ 0 ∷ [] =
      drop-write_bytes 0 4095 bytes c.buffer (omega arith) (omega arith) ∙ h in
    let (t, p) = c_string-drop 4095 b [] tail in
    let (u, q) = c_string-drop 4087 (drop 8 b) [] (drop-drop 4087 8 b ∙ tail) in
    let (r, k, w) =
      handle_client_fsm_total e db f (record c { buffer = b }) v fits room (length-ended b tail)
        (λ n. cc) in
    (r, k, w, w.buffer.tail ∙ tail, (t, p))
