-- ===== src/Greeting/Exchange.antt =====
-- The client reads what the server sends, on any two hosts.
use lowlevel_academy.Prelude.{
  ap, arith, append-nil, none, arith, append-nil, none, true, map, some, Option, [], ℕ, ◌≡◌, ◌<◌,
  refl, List, ◌∷◌, ◌++◌, take, drop, replicate,
}
use lowlevel_academy.Host.{Endian, little, big, store16, store32, load32, htons, htonl}
use lowlevel_academy.Host.Laws.{ntohl-load32, load32-store32}
use lowlevel_academy.Memory.{put_over, write_bytes}
use lowlevel_academy.Protocol as Protocol
use lowlevel_academy.Protocol.{get_type, set_type, get_length, set_length}
use lowlevel_academy.Protocol.Frame.{frame, header_ntoh-frame}
use lowlevel_academy.Greeting.Server as Server
use lowlevel_academy.Greeting.Server.{
  accepting, return_minus_one, closed, preceded, wrote, Action, accept_loop, start_listening,
  hello_buffer, hello_message,
}
use lowlevel_academy.Greeting.Client as Client
use lowlevel_academy.Greeting.Client.{
  connected, connected, unless, connect_step, header_ntoh, data_ntoh, report, handle_connection,
}

-- A message of twelve bytes: type, length, padding and version.
abbrev pub message : (t n a b v : ℕ) → List ℕ
message t n a b v = frame big t n (a ∷ b ∷ store32 big v)

header_ntoh-Protocol : (e : Endian) (buf : List ℕ) → header_ntoh e buf ≡ Protocol.header_ntoh e buf
unfolding header_ntoh Protocol.header_ntoh get_type set_type get_length set_length
header_ntoh-Protocol e buf = refl

over_zeros :
    (t n a b v : ℕ)
    → write_bytes 0 (take 12 (message t n a b v)) (replicate 4096 0)
      ≡ frame big t n (a ∷ b ∷ store32 big v ++ replicate 4084 0)
unfolding frame store32 store16 write_bytes put_over
over_zeros t n a b v = refl

drop-frame8 : (e : Endian) (t n a b : ℕ) (r : List ℕ) → drop 8 (frame e t n (a ∷ b ∷ r)) ≡ r
unfolding frame store32 store16
drop-frame8 little t n a b r = refl
drop-frame8 big t n a b r = refl

data_ntoh-frame :
    (e : Endian) (t n a b v : ℕ) (r : List ℕ)
    → v < 4294967296
    → data_ntoh e (frame e t n (a ∷ b ∷ store32 big v ++ r))
      ≡ frame e t n (a ∷ b ∷ store32 e v ++ r)
unfolding data_ntoh frame store32 store16 write_bytes put_over
data_ntoh-frame little t n a b v r h =
    rw (drop-frame8 little t n a b (store32 big v ++ r), ntohl-load32 little v r h) refl
data_ntoh-frame big t n a b v r h =
    rw (drop-frame8 big t n a b (store32 big v ++ r), ntohl-load32 big v r h) refl

load_type-frame :
    (e : Endian) (t n : ℕ) (r : List ℕ) → t < 4294967296 → load32 e (frame e t n r) ≡ t
unfolding frame
load_type-frame e t n r h = load32-store32 e t (store16 e n ++ r) h

-- For any message, the two tests are made on the numbers that were sent.
handle_connection_lem :
    (e : Endian) (t n a b v : ℕ)
    → t < 4294967296
    → n < 65536
    → v < 4294967296
    → handle_connection e (message t n a b v) ≡ report t v
unfolding handle_connection
handle_connection_lem e t n a b v ht hn hv =
    let r = a ∷ b ∷ store32 big v ++ replicate 4084 0 in
    let r' = a ∷ b ∷ store32 e v ++ replicate 4084 0 in
    rw
      (
        over_zeros t n a b v,
        header_ntoh-Protocol e (frame big t n r),
        header_ntoh-frame e t n r ht hn,
        data_ntoh-frame e t n a b v (replicate 4084 0) hv,
        load_type-frame e t n r' ht,
        drop-frame8 e t n a b (store32 e v ++ replicate 4084 0),
        load32-store32 e v (replicate 4084 0) hv,
      )
      refl

-- The greeting on the wire, and what the server does for clients in turn.
abbrev pub greeting : List ℕ
greeting = 0 ∷ 0 ∷ 0 ∷ 0 ∷ 0 ∷ 4 ∷ 0 ∷ 0 ∷ 0 ∷ 0 ∷ 0 ∷ 1 ∷ []

abbrev pub greeted : List ℕ → List Action
greeted [] = []
greeted (c ∷ cs) = wrote c greeting ∷ closed c ∷ greeted cs

hello_message-greeting : (e : Endian) → hello_message e ≡ greeting
unfolding hello_message hello_buffer store32 store16 write_bytes put_over htonl htons
hello_message-greeting little = refl
hello_message-greeting big = refl

handle_connection-greeting : (e : Endian) → handle_connection e greeting ≡ connected 1 ∷ []
unfolding frame store32 store16 report unless
handle_connection-greeting e =
    handle_connection_lem e 0 4 0 0 1 (omega arith) (omega arith) (omega arith)

accept_loop-greeted :
    (e : Endian) (fd : ℕ) (cfds : List ℕ) (later : List (Option ℕ))
    → accept_loop e fd (map some cfds ++ later) ≡ preceded (greeted cfds) (accept_loop e fd later)
unfolding accept_loop preceded
accept_loop-greeted e fd [] later = refl
accept_loop-greeted e fd (c ∷ cfds) later =
    rw (accept_loop-greeted e fd cfds later, hello_message-greeting e) refl

-- A server on any host that can listen sends each client that it accepts the same twelve bytes, and
-- closes it before the next; it goes on until `accept` fails, and then closes its socket and ends
-- with -1. A client on any host that connects and reads these bytes prints that it is connected with
-- version 1, and nothing else.
pub exchange_lem :
    (server client : Endian) (fd : ℕ) (cfds : List ℕ) (later : List (Option ℕ))
    → (Server.main server (some fd) true true (map some cfds)
        ≡ record { actions = greeted cfds; standing = accepting })
      × (Server.main server (some fd) true true (map some cfds ++ none ∷ later)
          ≡ record { actions = greeted cfds ++ closed fd ∷ []; standing = return_minus_one })
      × (Client.main client 2 true true greeting
          ≡ record { code = Client.return_zero; lines = connected 1 ∷ [] })
unfolding Server.main start_listening Client.main connect_step preceded accept_loop report unless
exchange_lem server client fd cfds later =
    let all = accept_loop-greeted server fd cfds [] in
    (
      rw (append-nil (map some cfds), append-nil (greeted cfds)) at all,
      accept_loop-greeted server fd cfds (none ∷ later),
      ap (λ ls. record { code = Client.return_zero; lines = ls })
          (handle_connection-greeting client),
    )
