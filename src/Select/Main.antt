-- ===== src/Select/Main.antt =====
-- `main` of select_multiplexing.c, round after round.
use lowlevel_academy.Prelude.{ℕ, Bool, List, [], ◌∷◌, Option, none, some, ◌&&◌, if◌then◌else◌}
use lowlevel_academy.Select.{init_clients}
use lowlevel_academy.Select.Round.{Loop, Events, round}
pub mod Total

-- Where `main` stands: at exit(EXIT_FAILURE), or in `select`.
pub data Standing : Type 0 where
  exit_failure : Standing
  selecting : Loop → Standing

unfoldable pub next_round : (Loop → Option Standing) → Option Loop → Option Standing
next_round k none = none
next_round k (some l) = k l

-- `while (1)`, for what comes from outside in each round; `none` is a `select` that fails. As a result,
-- `none` is a fault.
unfoldable pub rounds : (listen_fd : ℕ) → List (Option Events) → Loop → Option Standing
unfolding next_round
rounds listen_fd [] l = some (selecting l)
rounds listen_fd (none ∷ evs) l = some exit_failure
rounds listen_fd (some ev ∷ evs) l = next_round (rounds listen_fd evs) (round listen_fd ev l)

-- `socket` returned a descriptor, or `none` for -1.
unfoldable pub main : Option ℕ → (bound listening : Bool) → List (Option Events) → Option Standing
unfolding rounds
main none bound listening evs = some exit_failure
main (some listen_fd) bound listening evs =
    if bound && listening
    then rounds listen_fd evs (record { clients = init_clients; closed = [] })
    else some exit_failure
