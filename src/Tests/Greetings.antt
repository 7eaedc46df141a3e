-- ===== src/Tests/Greetings.antt =====
-- The theorem about 03_socket_programming, at concrete inputs: descriptors 4 and 5 connect.
use lowlevel_academy.Prelude.{true, ◌≡◌, [], ◌∷◌, ◌++◌, none, some, List, ℕ, map}
use lowlevel_academy.Host.{little, big}
use lowlevel_academy.Greeting.Server as Server
use lowlevel_academy.Greeting.Server.{closed, accepting, return_minus_one}
use lowlevel_academy.Greeting.Client as Client
use lowlevel_academy.Greeting.Client.{connected}
use lowlevel_academy.Greeting.Exchange.{greeting, greeted, exchange_lem}

abbrev cfds : List ℕ
cfds = 4 ∷ 5 ∷ []

exchange_lem_example :
    (Server.main little (some 3) true true (map some cfds)
      ≡ record { actions = greeted cfds; standing = accepting })
    × (Server.main little (some 3) true true (map some cfds ++ none ∷ [])
        ≡ record { actions = greeted cfds ++ closed 3 ∷ []; standing = return_minus_one })
    × (Client.main big 2 true true greeting
        ≡ record { code = Client.return_zero; lines = connected 1 ∷ [] })
exchange_lem_example = exchange_lem little big 3 cfds []
