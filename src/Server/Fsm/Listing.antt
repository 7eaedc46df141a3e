-- ===== src/Server/Fsm/Listing.antt =====
-- The reply to a list request.
use lowlevel_academy.Prelude.{
  ℕ, zero, suc, ◌≡◌, ◌<◌, refl, sym, ◌∙◌, Bool, List, [], ◌∷◌, ◌++◌, map, length, arith, Option,
  some, length-append, append_assoc, take-append,
}
use lowlevel_academy.Host.{Endian, big, store32}
use lowlevel_academy.Host.Laws.{store32-htonl, length-store32}
use lowlevel_academy.Memory.{write-write, write_bytes, write_bytes-middle}
use lowlevel_academy.Cstring.{strncpy}
use lowlevel_academy.Cstring.Copy.{length-strncpy}
use lowlevel_academy.Database.{Employee, Fd}
use lowlevel_academy.Database.Add.{Db}
use lowlevel_academy.Database.Format.{employee_image}
use lowlevel_academy.Protocol.Frame.{
  frame-append, length-frame, set_net_header-frame, frame, take-frame, drop-frame, get_type-frame,
  header_ntoh-frame,
}
use lowlevel_academy.Server.{state_msg}
use lowlevel_academy.Server.Fsm.{
  put_employee, add_sent, send_employees, fsm_reply_list, handle_msg, handle_client_fsm,
}

-- The record as it is sent: each array is copied as a string.
abbrev pub sent_employee : Employee → List ℕ
sent_employee x =
    employee_image (record x { name = strncpy 256 x.name; address = strncpy 256 x.address })

-- Three writes in a row over the bytes behind the first eight.
three_writes :
    (h n a z o r : List ℕ)
    → length h ≡ 8
    → length n ≡ 256
    → length a ≡ 256
    → length z ≡ 4
    → length o ≡ 516
    → write_bytes 520 z (write_bytes 264 a (write_bytes 8 n (h ++ (o ++ r))))
      ≡ h ++ ((n ++ (a ++ z)) ++ r)
three_writes h n a z o r hh hn ha hz ho =
    rw
      (
        write-write 8 264 n a (h ++ (o ++ r)) (omega arith),
        write-write 8 520 (n ++ a) z (h ++ (o ++ r)) (omega (arith, length-append n a)),
        append_assoc n a z,
      )
      (write_bytes-middle 8 h (n ++ (a ++ z)) o r hh
        (omega (arith, length-append n (a ++ z), length-append a z)))

put_employee-frame :
    (e : Endian) (x : Employee) (t c a b : ℕ) (o r : List ℕ)
    → length o ≡ 516
    → put_employee e x (frame big t c (a ∷ b ∷ o ++ r))
      ≡ frame big t c (a ∷ b ∷ sent_employee x ++ r)
unfolding put_employee employee_image
put_employee-frame e x t c a b o r h =
    rw (frame-append big t c a b (o ++ r), store32-htonl e x.hours)
      (three_writes (frame big t c (a ∷ b ∷ [])) (strncpy 256 x.name) (strncpy 256 x.address)
          (store32 big x.hours) o r (length-frame big t c (a ∷ b ∷ [])) (length-strncpy 256 x.name)
          (length-strncpy 256 x.address) (length-store32 big x.hours) h
        ∙ sym (frame-append big t c a b (sent_employee x ++ r)))

pub length-sent_employee : (x : Employee) → length (sent_employee x) ≡ 516
unfolding employee_image
length-sent_employee x = omega (
  arith,
  length-append (strncpy 256 x.name) (strncpy 256 x.address ++ store32 big x.hours),
  length-append (strncpy 256 x.address) (store32 big x.hours),
  length-strncpy 256 x.name,
  length-strncpy 256 x.address,
  length-store32 big x.hours,
)

-- The buffer is reused for each record; what goes out is the records, in order.
send_employees-frame :
    (e : Endian) (n : ℕ) (es : List Employee) (t c a b : ℕ) (o r : List ℕ)
    → n ≡ length es
    → length o ≡ 516
    → (rest : List ℕ) × (send_employees e n es (frame big t c (a ∷ b ∷ o ++ r))
        ≡ some (record { buffer = rest; sent = map sent_employee es }))
unfolding send_employees
send_employees-frame e zero [] t c a b o r p h = (_, refl)
send_employees-frame e zero (x ∷ es) t c a b o r p h = absurd (omega arith)
send_employees-frame e (suc n) [] t c a b o r p h = absurd (omega arith)
send_employees-frame e (suc n) (x ∷ es) t c a b o r p h =
    let (rest, q) =
      send_employees-frame e n es t c a b (sent_employee x) r (omega arith)
        (length-sent_employee x) in
    (
      rest,
      rw (
        put_employee-frame e x t c a b o r h,
        q,
        drop-frame big t c a b (sent_employee x ++ r),
        take-append 516 (sent_employee x) r (length-sent_employee x),
      ),
    )

-- A list request in the message state, on any host, is answered by a header with the number of
-- employees and then by the record of each in order, and nothing else changes but the buffer.
pub handle_list_lem :
    (e : Endian) (b : Bool) (db : Db) (disk : Fd) (fd : Option ℕ) (n p q : ℕ) (o r : List ℕ)
    → n < 65536
    → length o ≡ 516
    → db.header.count ≡ length db.employees
    → (rest : List ℕ) × (handle_client_fsm e b db disk
          (record { fd = fd; state = state_msg; buffer = frame big 3 n (p ∷ q ∷ o ++ r) })
        ≡ some (record {
          db = db;
          disk = disk;
          client = record { fd = fd; state = state_msg; buffer = rest };
          sent = frame big 4 db.header.count (p ∷ q ∷ []) ∷ map sent_employee db.employees;
        }))
unfolding handle_client_fsm handle_msg fsm_reply_list add_sent
handle_list_lem e b db disk fd n p q o r hn ho counted =
    let (rest, k) =
      send_employees-frame e db.header.count db.employees 4 db.header.count p q o r counted ho in
    (
      rest,
      rw (
        header_ntoh-frame e 3 n (p ∷ q ∷ o ++ r) (omega arith) hn,
        get_type-frame e 3 n (p ∷ q ∷ o ++ r) (omega arith),
        set_net_header-frame e 4 db.header.count 3 n (p ∷ q ∷ o ++ r),
        k,
        take-frame,
      ),
    )
