-- ===== src/Client/Listing.antt =====
-- The client's list request meets the server's `handle_client_fsm`.
pub mod Rows
use lowlevel_academy.Prelude.{
  ℕ, zero, suc, ◌≡◌, ◌<◌, refl, ap, sym, ◌∙◌, Bool, List, [], ◌∷◌, ◌++◌, map, Option, some, take,
  drop, length, arith, length-append, append_assoc, drop-append, take-append-drop, length-take,
  length-map, length-drop, length-replicate,
}
use lowlevel_academy.Host.{Endian, big, store32}
use lowlevel_academy.Host.Laws.{ntohl-load32, load32-store32, length-store32}
use lowlevel_academy.Memory.{write_bytes, write_bytes-middle, write_bytes-drop}
use lowlevel_academy.Cstring.{strncpy}
use lowlevel_academy.Cstring.Copy.{length-strncpy, strncpy_idem}
use lowlevel_academy.Database.{Fd}
use lowlevel_academy.Database.Add.{Db}
use lowlevel_academy.Database.Format.{employee_image}
use lowlevel_academy.Database.Person.{
  Person, IsPerson, ArePersons, recorded, c_string-strncpy_append,
}
use lowlevel_academy.Protocol.Frame.{
  frame, frame-behind, frame-append, length-frame, drop-frame, set_header-frame, header_hton-frame,
  header_ntoh-frame, get_type-frame, get_length-frame, take-frame,
}
use lowlevel_academy.Protocol.{header_ntoh}
use lowlevel_academy.Server.{state_msg}
use lowlevel_academy.Server.Fsm.{handle_client_fsm}
use lowlevel_academy.Server.Fsm.Listing.{sent_employee, length-sent_employee, handle_list_lem}
use lowlevel_academy.Client.{
  Row, print_row, hours_ntoh, next_chunk, other_chunks, read_rows, list_buffer, list_sent,
  list_read, list_employees,
}
use lowlevel_academy.Client.Listing.Rows.{row, read_rows-records}
use lowlevel_academy.Client.Handshake.{zeros}
use lowlevel_academy.Client.Request.{zeroed-header}

list_buffer-frame : (e : Endian) → list_buffer e ≡ frame big 3 0 (0 ∷ 0 ∷ zeros 4088)
unfolding list_buffer
list_buffer-frame e =
    rw
      (
        zeroed-header e,
        set_header-frame e e 3 0 0 0 (0 ∷ 0 ∷ zeros 4088),
        header_hton-frame e 3 0 (0 ∷ 0 ∷ zeros 4088) (omega arith) (omega arith),
      )
      refl

list_sent-frame : (e : Endian) → list_sent e ≡ frame big 3 0 (0 ∷ 0 ∷ [])
unfolding list_sent
list_sent-frame e = rw (list_buffer-frame e) (take-frame big 3 0 0 0 (zeros 4088))

-- A header of eight bytes over the front of a buffer.
over_header :
    (e d : Endian) (t n u m : ℕ) (r : List ℕ)
    → write_bytes 0 (frame e t n (0 ∷ 0 ∷ [])) (frame d u m (0 ∷ 0 ∷ r)) ≡ frame e t n (0 ∷ 0 ∷ r)
over_header e d t n u m r =
    rw
      (
        write_bytes-drop (frame e t n (0 ∷ 0 ∷ [])) (frame d u m (0 ∷ 0 ∷ r)),
        length-frame e t n (0 ∷ 0 ∷ []),
        drop-frame d u m 0 0 r,
        frame-behind e t n 0 0 [] r,
      )
      refl

abbrev nul : ℕ
nul = 0

-- The slot's buffer after the request is read over it.
received :
    (e : Endian) (old : List ℕ)
    → write_bytes 0 (list_sent e) old ≡ frame big 3 0 (0 ∷ 0 ∷ drop 8 old)
received e old =
    rw
      (
        list_sent-frame e,
        write_bytes-drop (frame big 3 0 (0 ∷ 0 ∷ [])) old,
        length-frame big 3 0 (0 ∷ 0 ∷ []),
        frame-behind big 3 0 0 0 [] (drop 8 old),
      )
      refl

list_read-records :
    (e : Endian) (n : ℕ) (xs : List Person)
    → n ≡ length xs
    → n < 65536
    → ArePersons xs
    → list_read e
        (map sent_employee (map recorded xs))
        (header_ntoh e (write_bytes 0 (frame big 4 n (0 ∷ 0 ∷ [])) (list_buffer e)))
      ≡ some (map row xs)
unfolding list_read zeros
list_read-records e n xs p fit v =
    let z : List ℕ = zeros 4088 in
    let split : frame e 4 n (0 ∷ 0 ∷ z) ≡ frame e 4 n (0 ∷ 0 ∷ []) ++ (take 516 z ++ drop 516 z) =
      frame-append e 4 n 0 0 z
      ∙ ap (λ t. frame e 4 n (0 ∷ 0 ∷ []) ++ t) (sym (take-append-drop 516 z)) in
    let rows =
      ap (read_rows e n (map sent_employee (map recorded xs))) split
      ∙ read_rows-records e n xs (frame e 4 n (0 ∷ 0 ∷ [])) (take 516 z) (drop 516 z) p v
          (length-frame e 4 n (0 ∷ 0 ∷ []))
          (omega (arith, length-take 516 z, length-replicate 4088 nul)) in
    rw
      (
        list_buffer-frame e,
        over_header big big 4 n 3 0 z,
        header_ntoh-frame e 4 n (0 ∷ 0 ∷ z) (omega arith) fit,
        get_type-frame e 4 n (0 ∷ 0 ∷ z) (omega arith),
        get_length-frame e 4 n (0 ∷ 0 ∷ z) fit,
        rows,
      )
      refl

-- A client on any host asks a server on any host for the list, in the message state, and reads each
-- of the messages that the server sends with one call of `read`: it prints the employees of the
-- database in order, if these are persons whose texts have fewer than 256 characters and no NUL, and
-- the server keeps the database and the file as they were.
pub list_employees_lem :
    (client server : Endian) (b : Bool) (db : Db) (disk : Fd) (fd : Option ℕ) (xs : List Person)
    (old : List ℕ)
    → db.employees ≡ map recorded xs
    → db.header.count ≡ length xs
    → db.header.count < 65536
    → ArePersons xs
    → length old ≡ 4096
    → (rest : List ℕ) × (sent : List (List ℕ)) × (handle_client_fsm server b db disk
          (record { fd = fd; state = state_msg; buffer = write_bytes 0 (list_sent client) old })
        ≡ some (record {
          db = db;
          disk = disk;
          client = record { fd = fd; state = state_msg; buffer = rest };
          sent = sent;
        }))
      × (list_employees client sent ≡ (list_sent client, some (map row xs)))
unfolding list_employees next_chunk other_chunks
list_employees_lem client server b db disk fd xs old p counted fit v h =
    let behind : List ℕ = drop 8 old in
    let size = length-drop 8 old in
    let buffer : write_bytes 0 (list_sent client) old
        ≡ frame big 3 0 (0 ∷ 0 ∷ take 516 behind ++ drop 516 behind) =
      received client old
      ∙ ap (λ t. frame big 3 0 (0 ∷ 0 ∷ t)) (sym (take-append-drop 516 behind)) in
    let (rest, q) =
      handle_list_lem server b db disk fd 0 0 0 (take 516 behind) (drop 516 behind) (omega arith)
        (omega (arith, length-take 516 behind))
        (counted ∙ sym (ap length p ∙ length-map xs recorded)) in
    (
      rest,
      frame big 4 db.header.count (0 ∷ 0 ∷ []) ∷ map sent_employee db.employees,
      ap
            (λ t.
              handle_client_fsm server b db disk
                (record { fd = fd; state = state_msg; buffer = t }))
            buffer
          ∙ q,
      ap
            (λ es. (
              list_sent client,
              list_read client (map sent_employee es) (
                  header_ntoh client (
                    write_bytes 0 (frame big 4 db.header.count (0 ∷ 0 ∷ [])) (list_buffer client))),
            ))
            p
          ∙ ap (λ o. (list_sent client, o))
              (list_read-records client db.header.count xs counted fit v),
    )
