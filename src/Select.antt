-- ===== src/Select.antt =====
-- The server of 02-networking-code/04_advanced_techniques/select_multiplexing.c: its table of clients
-- and the greeting.
use lowlevel_academy.Prelude.{
  ℕ, zero, suc, ◌+◌, List, [], ◌∷◌, ◌++◌, Option, none, some, replicate, take,
}
use lowlevel_academy.Host.{Endian, store16, store32, htons, htonl}
use lowlevel_academy.Memory.{write_bytes}
pub mod Round
pub mod Main

-- MAX_CLIENTS and BUFF_SIZE
abbrev pub max_clients : ℕ
max_clients = 256

abbrev pub buff_size : ℕ
buff_size = 4096

pub data State : Type 0 where
  state_new state_connected state_disconnected : State

-- `fd` is `none` for -1, a free slot.
pub record ClientState : Type 0 where
  pub fd : Option ℕ
  pub state : State
  pub buffer : List ℕ

unfoldable pub fresh_client : ClientState
fresh_client = record { fd = none; state = state_new; buffer = replicate buff_size 0 }

-- All `MAX_CLIENTS` entries of the table are written.
unfoldable pub init_clients : List ClientState
unfolding fresh_client
init_clients = replicate max_clients fresh_client

-- The loop of `find_free_slot`, from `i` on; `none` is -1.
unfoldable pub free_or : ℕ → Option ℕ → Option ℕ → Option ℕ
free_or i none rest = some i
free_or i (some d) rest = rest

unfoldable pub free_from : ℕ → List ClientState → Option ℕ
unfolding free_or
free_from i [] = none
free_from i (c ∷ cs) = free_or i c.fd (free_from (i + 1) cs)

unfoldable pub find_free_slot : List ClientState → Option ℕ
unfolding free_from
find_free_slot cs = free_from 0 cs

-- What `handle_client` writes. `proto_hdr_t` is an `int`, an `unsigned short` and two bytes of
-- padding, and an `int` follows it: PROTO_HELLO is 0, the length is 4, and the version is 1.
unfoldable pub hello : Endian → List ℕ
hello e =
    let typed = write_bytes 0 (store32 e (htonl e 0)) (replicate buff_size 0) in
    let sized = write_bytes 4 (store16 e (htons e 4)) typed in
    take (8 + 4) (write_bytes 8 (store32 e (htonl e 1)) sized)
