-- ===== src/Client/Request.antt =====
-- The client's add request meets the server's `handle_client_fsm`.
use lowlevel_academy.Prelude.{◌≡◌, refl, ◌∷◌}
use lowlevel_academy.Host.{Endian, little, big, store16, store32}
use lowlevel_academy.Protocol.Frame.{frame}
use lowlevel_academy.Client.{zeroed}
use lowlevel_academy.Client.Handshake.{zeros}

pub zeroed-header : (e : Endian) → zeroed ≡ frame e 0 0 (0 ∷ 0 ∷ zeros 4088)
unfolding zeroed frame store32 store16 zeros
zeroed-header little = refl
zeroed-header big = refl
