-- ===== src/Tests/Race.antt =====
-- The theorem about race.c, for the rounds of the program.
use lowlevel_academy.Prelude.{[], ◌∷◌, arith}
use lowlevel_academy.Race.{finished, Reach}
use lowlevel_academy.Race.Lost.{race_loses}

race_loses_example : Reach 1000000 2 (record { counter = 1000000; pcs = finished ∷ finished ∷ [] })
race_loses_example = race_loses 1000000 (omega arith)
