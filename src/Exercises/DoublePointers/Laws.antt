-- ===== src/Exercises/DoublePointers/Laws.antt =====
-- What is left on the heap.
use lowlevel_academy.Prelude.{arith, ℕ, ◌≡◌, refl, true, false, [], ◌∷◌, none, some, ◌==◌}
use lowlevel_academy.Exercises.DoublePointers.{foo, main, bad}

-- When `realloc` fails, `foo` forgets the old block, which stays allocated, and `main` ends with it.
-- Otherwise one block is left, the one that `realloc` returned.
pub main_lem :
    (first b : ℕ)
    → (foo none (some first) (first ∷ [])
        ≡ record { status = bad; pointer = none; live = first ∷ [] })
      × (main (some first) none ≡ record { uh_oh = true; live = first ∷ [] })
      × (main (some first) (some b) ≡ record { uh_oh = false; live = b ∷ [] })
unfolding foo main
main_lem first b = (refl, refl, let e : (first == first) ≡ true = ground arith in rw e refl)
