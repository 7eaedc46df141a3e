-- ===== src/Client/Handshake.antt =====
-- The client's hello meets the server's `handle_client_fsm`.
use lowlevel_academy.Prelude.{
  ℕ, ◌≡◌, refl, Bool, List, [], ◌∷◌, ◌++◌, Option, some, drop, replicate, arith,
}
use lowlevel_academy.Host.{Endian, little, big, store16, store32}
use lowlevel_academy.Host.Laws.{ntohs-load16}
use lowlevel_academy.Memory.{write_bytes-drop, write_bytes, put_over}
use lowlevel_academy.Database.{Fd}
use lowlevel_academy.Database.Add.{Db}
use lowlevel_academy.Protocol.{get_proto}
use lowlevel_academy.Protocol.Frame.{
  frame, set_header-frame, set_proto-frame, header_hton-frame, header_ntoh-frame, proto_hton-frame,
  take_hello-frame, get_type-frame, drop-frame,
}
use lowlevel_academy.Server.{state_hello, state_msg}
use lowlevel_academy.Server.Fsm.{handle_client_fsm}
use lowlevel_academy.Server.Fsm.Hello.{handle_hello_lem, hello_buffer as left_buffer}
use lowlevel_academy.Client.{zeroed, hello_buffer, hello_sent, hello_read, send_hello}

-- The end of a zeroed buffer.
unfoldable pub zeros : ℕ → List ℕ
zeros n = replicate n 0

pub zeroed-frame : (e : Endian) → zeroed ≡ frame e 0 0 (0 ∷ 0 ∷ store16 e 0 ++ zeros 4086)
unfolding zeroed frame store32 store16 zeros
zeroed-frame little = refl
zeroed-frame big = refl

hello_buffer-frame :
    (e : Endian) → hello_buffer e ≡ frame big 1 1 (0 ∷ 0 ∷ store16 big 100 ++ zeros 4086)
unfolding hello_buffer
hello_buffer-frame e = rw (
  zeroed-frame e,
  set_header-frame e e 1 1 0 0 (0 ∷ 0 ∷ store16 e 0 ++ zeros 4086),
  set_proto-frame e e e 1 1 0 0 0 100 (zeros 4086),
  header_hton-frame e 1 1 (0 ∷ 0 ∷ store16 e 100 ++ zeros 4086) (omega arith) (omega arith),
  proto_hton-frame big e 1 1 0 0 100 (zeros 4086) (omega arith),
)

pub hello_sent-frame : (e : Endian) → hello_sent e ≡ frame big 1 1 (0 ∷ 0 ∷ store16 big 100)
unfolding hello_sent
hello_sent-frame e = rw (hello_buffer-frame e) (take_hello-frame big big 1 1 0 0 100 (zeros 4086))

-- A short message over the start of a buffer, with two bytes of padding and a version.
over_hello :
    (t n a b p : ℕ) (old : List ℕ)
    → write_bytes 0 (frame big t n (a ∷ b ∷ store16 big p)) old
      ≡ frame big t n (a ∷ b ∷ store16 big p ++ drop 10 old)
unfolding frame store32 store16
over_hello t n a b p old = write_bytes-drop (frame big t n (a ∷ b ∷ store16 big p)) old

-- The server's answer to a hello of version 100.
abbrev pub welcome : List ℕ
welcome = frame big 2 1 (0 ∷ 0 ∷ store16 big 100)

hello_read-welcome :
    (e : Endian) (old : List ℕ) → hello_read e (write_bytes 0 welcome old) ≡ some 100
unfolding hello_read get_proto
hello_read-welcome e old = rw (
  over_hello 2 1 0 0 100 old,
  header_ntoh-frame e 2 1 (0 ∷ 0 ∷ store16 big 100 ++ drop 10 old) (omega arith) (omega arith),
  get_type-frame e 2 1 (0 ∷ 0 ∷ store16 big 100 ++ drop 10 old) (omega arith),
  drop-frame e 2 1 0 0 (store16 big 100 ++ drop 10 old),
  ntohs-load16 e 100 (drop 10 old) (omega arith),
)

-- The hello that a client sends from any host, read into a slot of a server on any host that is in
-- the hello state, with anything in the slot's buffer, moves the slot to the message state and is
-- answered by one message; the client reads success and version 100 from it.
pub handshake_lem :
    (client server : Endian) (b : Bool) (db : Db) (disk : Fd) (fd : Option ℕ) (old : List ℕ)
    → (rest : List ℕ) × (handle_client_fsm server b db disk
          (record { fd = fd; state = state_hello; buffer = write_bytes 0 (hello_sent client) old })
        ≡ some (record {
          db = db;
          disk = disk;
          client = record { fd = fd; state = state_msg; buffer = rest };
          sent = welcome ∷ [];
        }))
      × (send_hello client welcome ≡ (hello_sent client, some 100))
unfolding send_hello
handshake_lem client server b db disk fd old = (
  left_buffer server
      (record { type = 1; length = 1; pad = 0; pad' = 0; proto = 100; behind = drop 10 old }),
  rw (hello_sent-frame client, over_hello 1 1 0 0 100 old)
      (handle_hello_lem server b db disk fd
        (record { type = 1; length = 1; pad = 0; pad' = 0; proto = 100; behind = drop 10 old })
        (omega arith)),
  rw (hello_read-welcome client (hello_buffer client)),
)

-- The client does not look at what `read` returns: with no answer at all it reports success, with
-- the version of its own request, which still stands in its buffer.
pub hello_unanswered : (e : Endian) → send_hello e [] ≡ (hello_sent e, some 100)
unfolding send_hello hello_read get_proto write_bytes put_over
hello_unanswered e = rw (
  hello_buffer-frame e,
  header_ntoh-frame e 1 1 (0 ∷ 0 ∷ store16 big 100 ++ zeros 4086) (omega arith) (omega arith),
  get_type-frame e 1 1 (0 ∷ 0 ∷ store16 big 100 ++ zeros 4086) (omega arith),
  drop-frame e 1 1 0 0 (store16 big 100 ++ zeros 4086),
  ntohs-load16 e 100 (zeros 4086) (omega arith),
)
