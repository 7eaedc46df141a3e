-- ===== src/Server/Fsm/Replies.antt =====
-- The replies of server_poll.c, as the messages that they put on the network.
use lowlevel_academy.Prelude.{ℕ, ◌≡◌, ◌<◌, List, [], ◌∷◌, ◌++◌, arith}
use lowlevel_academy.Host.{Endian, big, store16}
use lowlevel_academy.Protocol.Frame.{
  frame, set_header-frame, take_hello-frame, header_hton-frame, take-frame, set_proto-frame,
  proto_hton-frame,
}
use lowlevel_academy.Server.Fsm.{reply_header, fsm_reply_hello}

-- A header alone goes out with length 0, and with the padding that the request had.
pub reply_header-frame :
    (e d : Endian) (x t n a b : ℕ) (r : List ℕ)
    → x < 4294967296
    → reply_header e x (frame d t n (a ∷ b ∷ r))
      ≡ record { buffer = frame big x 0 (a ∷ b ∷ r); sent = frame big x 0 (a ∷ b ∷ []) ∷ [] }
unfolding reply_header
reply_header-frame e d x t n a b r h =
    rw (set_header-frame e d, header_hton-frame e x 0 (a ∷ b ∷ r) h (omega arith), take-frame)

-- The reply to a hello says version 100.
pub fsm_reply_hello-frame :
    (e d c : Endian) (t n a b p : ℕ) (r : List ℕ)
    → fsm_reply_hello e (frame d t n (a ∷ b ∷ store16 c p ++ r)) ≡ record {
      buffer = frame big 2 1 (a ∷ b ∷ store16 big 100 ++ r);
      sent = frame big 2 1 (a ∷ b ∷ store16 big 100) ∷ [];
    }
unfolding fsm_reply_hello
fsm_reply_hello-frame e d c t n a b p r = rw (
  set_header-frame e d,
  set_proto-frame e e c 2 1 a b p 100 r,
  header_hton-frame e 2 1 (a ∷ b ∷ store16 e 100 ++ r) (omega arith) (omega arith),
  proto_hton-frame big e 2 1 a b 100 r (omega arith),
  take_hello-frame,
)
