-- ===== src/Server/Loop/Bag.antt =====
-- A bag of descriptors: what a table of clients is when the order of its slots is forgotten.
use lowlevel_academy.Prelude.{tally, ℕ, ◌≡◌, List, ◌∷◌, arith}
use mathlib.Core.Quot
use mathlib.Core.Quot.{Quot, Quot-set}

-- Each descriptor stands in both lists equally often.
abbrev pub SameTally : List ℕ → List ℕ → Type 0
SameTally ds ds' = (d : ℕ) → tally d ds ≡ tally d ds'

abbrev pub Bag : Type 0
Bag = Quot SameTally

abbrev pub bag_of : List ℕ → Bag
bag_of ds = Quot.mk ds

pub same_bag : (ds ds' : List ℕ) → SameTally ds ds' → bag_of ds ≡ bag_of ds'
same_bag ds ds' h = Quot.sound h

pub insert_same : (x : ℕ) (ds ds' : List ℕ) → SameTally ds ds' → bag_of (x ∷ ds) ≡ bag_of (x ∷ ds')
insert_same x ds ds' h = same_bag (x ∷ ds) (x ∷ ds') (λ d. omega (arith, h d))

unfoldable pub insert : ℕ → Bag → Bag
insert x = Quot.lift Quot-set (λ ds. bag_of (x ∷ ds)) (insert_same x)
