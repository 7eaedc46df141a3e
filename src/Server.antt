-- ===== src/Server.antt =====
-- include/server_poll.h: the table of clients. (02-networking-code/05_course_project)
pub mod Slots
pub mod Fsm
pub mod Files
pub mod Startup
pub mod Loop
use lowlevel_academy.Prelude.{ℕ, List, Option}

abbrev pub max_clients : ℕ
max_clients = 256

-- `state_e`
pub data State : Type 0 where
  state_new state_connected state_disconnected state_hello state_msg state_goodbye : State

-- `clientstate_t`. The descriptor is `none` for -1, which marks a free slot.
pub record ClientState : Type 0 where
  pub fd : Option ℕ
  pub state : State
  pub buffer : List ℕ
