-- ===== src/Tests/Sessions.antt =====
-- The theorem about a whole run of the client, against a server with no employees.
use lowlevel_academy.Prelude.{ℕ, List, [], ◌∷◌}

abbrev port : List ℕ
port = b'9' ∷ []

abbrev nul : ℕ
nul = 0
