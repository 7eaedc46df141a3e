-- ===== src/Greeting/Server.antt =====
-- 02-networking-code/03_socket_programming/server.c.
use lowlevel_academy.Prelude.{
  ℕ, ◌+◌, Bool, true, false, List, [], ◌∷◌, ◌++◌, Option, none, some, take, replicate,
}
use lowlevel_academy.Host.{Endian, store16, store32, htons, htonl}
use lowlevel_academy.Memory.{write_bytes}

-- PROTO_HELLO is 0, the length is 4, and the version is 1, behind a header of an `int`, an
-- `unsigned short` and two bytes of padding.
unfoldable pub hello_buffer : Endian → List ℕ
hello_buffer e =
    let typed = write_bytes 0 (store32 e (htonl e 0)) (replicate 4096 0) in
    let sized = write_bytes 4 (store16 e (htons e 4)) typed in
    write_bytes 8 (store32 e (htonl e 1)) sized

-- What `handle_client` writes.
unfoldable pub hello_message : Endian → List ℕ
unfolding hello_buffer
hello_message e = take (8 + 4) (hello_buffer e)

-- What the server does with descriptors.
pub data Action : Type 0 where
  wrote : ℕ → List ℕ → Action
  closed : ℕ → Action

-- Where `main` stands: in `accept`, or at its end with -1.
pub data Standing : Type 0 where
  accepting return_minus_one : Standing

pub record Trace : Type 0 where
  pub actions : List Action
  pub standing : Standing

unfoldable pub preceded : List Action → Trace → Trace
preceded before t = record t { actions = before ++ t.actions }

-- `while (1)`, for what `accept` returns call by call; `fd` is the listening socket.
unfoldable pub accept_loop : Endian → (fd : ℕ) → List (Option ℕ) → Trace
unfolding preceded hello_message
accept_loop e fd [] = record { actions = []; standing = accepting }
accept_loop e fd (none ∷ accepts) = record { actions = closed fd ∷ []; standing = return_minus_one }
accept_loop e fd (some cfd ∷ accepts) =
    preceded (wrote cfd (hello_message e) ∷ closed cfd ∷ []) (accept_loop e fd accepts)

-- `bind` and `listen`, on an open socket.
unfoldable pub start_listening :
    Endian → (fd : ℕ) → (bound listening : Bool) → List (Option ℕ) → Trace
unfolding accept_loop
start_listening e fd false _ accepts = record {
  actions = closed fd ∷ [];
  standing = return_minus_one;
}
start_listening e fd true false accepts = record {
  actions = closed fd ∷ [];
  standing = return_minus_one;
}
start_listening e fd true true accepts = accept_loop e fd accepts

-- `socket` returned `fd`; `none` is -1.
unfoldable pub main : Endian → (fd : Option ℕ) → (bound listening : Bool) → List (Option ℕ) → Trace
unfolding start_listening
main e none bound listening accepts = record { actions = []; standing = return_minus_one }
main e (some fd) bound listening accepts = start_listening e fd bound listening accepts
