-- ===== src/Tests/Select.antt =====
-- The theorems about select_multiplexing.c, at concrete inputs.
use lowlevel_academy.Prelude.{
  ℕ, zero, suc, ◌≡◌, refl, true, false, [], ◌∷◌, none, some, arith, replicate,
}
use lowlevel_academy.Host.{little, big, store16, store32, htons, htonl}
use lowlevel_academy.Memory.{write_bytes}
use lowlevel_academy.Cstring.Copy.{NoNul}
use lowlevel_academy.Select.{ClientState, state_connected, init_clients, hello}
use lowlevel_academy.Select.Round.{Loop, Events, is_set, round}
use lowlevel_academy.Select.Main.{Standing, main}
use lowlevel_academy.Select.Main.Total.{InOrder, select_main_total}

-- The greeting is the same on both hosts.
hello_little : hello little ≡ 0 ∷ 0 ∷ 0 ∷ 0 ∷ 0 ∷ 4 ∷ 0 ∷ 0 ∷ 0 ∷ 0 ∷ 0 ∷ 1 ∷ []
unfolding hello write_bytes store16 store32 htons htonl
hello_little = refl

hello_big : hello big ≡ 0 ∷ 0 ∷ 0 ∷ 0 ∷ 0 ∷ 4 ∷ 0 ∷ 0 ∷ 0 ∷ 0 ∷ 0 ∷ 1 ∷ []
unfolding hello write_bytes store16 store32 htons htonl
hello_big = refl

-- The table at the start, and a round in which descriptor 9 connects.
abbrev start : Loop
start = record { clients = init_clients; closed = [] }

abbrev connecting : Events
connecting = record { ready = λ d. false; accepted = some (some 9); reads = λ d. 65 ∷ [] }

abbrev connected_client : ClientState
connected_client = record { fd = some 9; state = state_connected; buffer = replicate 4096 0 }

abbrev one_client : Loop
one_client = record { clients = connected_client ∷ []; closed = [] }

abbrev listening : ℕ
listening = 3

abbrev descriptor : ℕ
descriptor = 9

-- One round in which descriptor 9 connects, and a `select` that fails.
select_main_total_example :
    (s : Standing) × (main (some 3) true true (some connecting ∷ none ∷ []) ≡ some s) × InOrder s
select_main_total_example =
    select_main_total (some 3) true true (some connecting ∷ none ∷ []) (λ d q. ground (arith, q))
      ((λ d. omega arith), (λ d q. ground (arith, q)), tt)

letters-NoNul : (n : ℕ) → NoNul (replicate n b'A')
letters-NoNul zero = tt
letters-NoNul (suc n) = (omega arith, letters-NoNul n)

abbrev nul : ℕ
nul = 0

abbrev letter : ℕ
letter = 65

-- Nothing is ready.
abbrev quiet : Events
quiet = record { ready = λ d. false; accepted = none; reads = λ d. [] }

round-quiet : round listening quiet one_client ≡ some one_client
unfolding round is_set
round-quiet = refl
