-- ===== src/Server/Slots.antt =====
-- `init_clients`, `find_free_slot` and `find_slot_by_fd` of server_poll.c.
use lowlevel_academy.Prelude.{
  ℕ, zero, suc, ◌+◌, Bool, true, false, List, [], ◌∷◌, Option, none, some, replicate, ◌==◌,
  if◌then◌else◌,
}
use lowlevel_academy.Protocol.{buff_size}
use lowlevel_academy.Server.{max_clients, state_new, ClientState}
pub mod Search

unfoldable pub fresh_client : ClientState
fresh_client = record { fd = none; state = state_new; buffer = replicate buff_size 0 }

-- The loop of `init_clients`, for the rounds that are left; an array that ends early is left alone.
unfoldable pub init_from : ℕ → List ClientState → List ClientState
unfolding fresh_client
init_from zero cs = cs
init_from (suc n) [] = []
init_from (suc n) (c ∷ cs) = fresh_client ∷ init_from n cs

unfoldable pub init_clients : List ClientState → List ClientState
unfolding init_from
init_clients cs = init_from max_clients cs

unfoldable pub same_fd : Option ℕ → Option ℕ → Bool
same_fd none none = true
same_fd (some a) (some b) = a == b
same_fd _ _ = false

-- The loop `if (states[i].fd == fd) return i`, from `i` on. `none` is -1.
unfoldable pub find_from : Option ℕ → ℕ → List ClientState → Option ℕ
unfolding same_fd
find_from fd i [] = none
find_from fd i (c ∷ cs) =
    let rest = find_from fd (i + 1) cs in if same_fd c.fd fd then some i else rest

unfoldable pub find_free_slot : List ClientState → Option ℕ
unfolding find_from
find_free_slot cs = find_from none 0 cs

unfoldable pub find_slot_by_fd : List ClientState → Option ℕ → Option ℕ
unfolding find_from
find_slot_by_fd cs fd = find_from fd 0 cs
