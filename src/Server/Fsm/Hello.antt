-- ===== src/Server/Fsm/Hello.antt =====
-- The handshake of `handle_client_fsm`.
use lowlevel_academy.Prelude.{
  ℕ, ◌≡◌, ◌<◌, Bool, ◌&&◌, List, [], ◌∷◌, ◌++◌, arith, Option, some, ◌==◌, if◌then◌else◌,
}
use lowlevel_academy.Host.{Endian, big, store16}
use lowlevel_academy.Database.{Fd}
use lowlevel_academy.Database.Add.{Db}
use lowlevel_academy.Protocol.Frame.{
  frame, get_type-frame, get_length-frame, get_proto-frame, header_ntoh-frame, proto_ntoh-frame,
}
use lowlevel_academy.Server.{State, state_hello, state_msg}
use lowlevel_academy.Server.Fsm.{fsm_reply_hello_error, handle_hello, handle_client_fsm}
use lowlevel_academy.Server.Fsm.Replies.{reply_header-frame, fsm_reply_hello-frame}

-- A hello as it comes from the network: type, length, two bytes of padding, and a version; behind
-- it, what the buffer held before.
pub record Hello : Type 0 where
  pub type : ℕ
  pub length : ℕ
  pub pad : ℕ
  pub pad' : ℕ
  pub proto : ℕ
  pub behind : List ℕ

pub record FitsHello (m : Hello) : Type 0 where
  pub type_fits : m.type < 4294967296
  pub length_fits : m.length < 65536
  pub proto_fits : m.proto < 65536

abbrev pub hello_bytes : Hello → List ℕ
hello_bytes m = frame big m.type m.length (m.pad ∷ m.pad' ∷ store16 big m.proto ++ m.behind)

abbrev pub is_welcome : Hello → Bool
is_welcome m = (m.type == 1) && ((m.length == 1) && (m.proto == 100))

-- What the protocol asks for: the state afterwards, and the reply.
abbrev pub hello_state : Hello → State
hello_state m = if is_welcome m then state_msg else state_hello

abbrev pub hello_reply : Hello → List ℕ
hello_reply m =
    if is_welcome m
    then frame big 2 1 (m.pad ∷ m.pad' ∷ store16 big 100)
    else frame big 0 0 (m.pad ∷ m.pad' ∷ [])

-- The buffer afterwards: the reply stands in it, before what was behind the version. Where the
-- version was looked at, it is left in the order of the host.
abbrev pub hello_buffer : Endian → Hello → List ℕ
hello_buffer e m =
    if (m.type == 1) && (m.length == 1)
    then if m.proto == 100
      then frame big 2 1 (m.pad ∷ m.pad' ∷ store16 big 100 ++ m.behind)
      else frame big 0 0 (m.pad ∷ m.pad' ∷ store16 e m.proto ++ m.behind)
    else frame big 0 0 (m.pad ∷ m.pad' ∷ store16 big m.proto ++ m.behind)

-- In the hello state, on any host, the handler changes neither database nor file; it sends one
-- message, a hello of version 100 to a hello request of length 1 and version 100, and an error
-- otherwise; and only the first of these moves the client to the message state.
pub handle_hello_lem :
    (e : Endian) (reallocated : Bool) (db : Db) (disk : Fd) (fd : Option ℕ) (m : Hello)
    → FitsHello m
    → handle_client_fsm e reallocated db disk
        (record { fd = fd; state = state_hello; buffer = hello_bytes m })
      ≡ some (record {
        db = db;
        disk = disk;
        client = record { fd = fd; state = hello_state m; buffer = hello_buffer e m };
        sent = hello_reply m ∷ [];
      })
unfolding handle_client_fsm handle_hello fsm_reply_hello_error
handle_hello_lem e reallocated db disk fd m v =
    rw
      (
        header_ntoh-frame e m.type m.length _ v.type_fits v.length_fits,
        get_type-frame e m.type m.length _ v.type_fits,
        get_length-frame e m.type m.length _ v.length_fits,
        proto_ntoh-frame e e m.type m.length m.pad m.pad' m.proto m.behind v.proto_fits,
        get_proto-frame e e m.type m.length m.pad m.pad' m.proto m.behind v.proto_fits,
        fsm_reply_hello-frame e e e m.type m.length m.pad m.pad' m.proto m.behind,
      )
      (ground (
        arith,
        reply_header-frame e e 0 m.type m.length m.pad m.pad' (store16 big m.proto ++ m.behind)
            (omega arith),
        reply_header-frame e e 0 m.type m.length m.pad m.pad' (store16 e m.proto ++ m.behind)
            (omega arith),
      ))
