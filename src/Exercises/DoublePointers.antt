-- ===== src/Exercises/DoublePointers.antt =====
-- 01-lowlevel-academy-c/07_pointers_mem_allocation/double_pointers.c. A pointer is the name of a
-- block on the heap, or `none` for NULL.
use lowlevel_academy.Prelude.{
  ℕ, Bool, true, false, List, [], ◌∷◌, Option, none, some, ◌==◌, if◌then◌else◌,
}
pub mod Laws

pub data Status : Type 0 where
  bad good : Status

-- The blocks that are allocated, without the block `b`.
unfoldable pub release : (b : Option ℕ) → List ℕ → List ℕ
release none live = live
release (some b) [] = []
release (some b) (c ∷ live) = if b == c then live else c ∷ release (some b) live

-- `realloc` returned `temp`, which is NULL or the block that stands for the old one.
unfoldable pub reallocated : (temp old : Option ℕ) → (live : List ℕ) → List ℕ
unfolding release
reallocated none old live = live
reallocated (some b) old live = b ∷ release old live

pub record Called : Type 0 where
  pub status : Status
  pub pointer : Option ℕ
  pub live : List ℕ

-- What `foo` returns, and what it leaves in `*data` and on the heap.
unfoldable pub foo : (temp pointer : Option ℕ) → (live : List ℕ) → Called
unfolding reallocated
foo none p live = record { status = bad; pointer = none; live = reallocated none p live }
foo (some b) p live = record { status = good; pointer = some b; live = reallocated (some b) p live }

-- How `main` ends: whether it complained, and the blocks that it has not freed.
pub record Ended : Type 0 where
  pub uh_oh : Bool
  pub live : List ℕ

unfoldable pub complains : Status → Bool
complains bad = true
complains good = false

unfoldable pub report : Called → Ended
unfolding complains
report r = record { uh_oh = complains r.status; live = r.live }

unfoldable pub allocated : Option ℕ → List ℕ
allocated none = []
allocated (some b) = b ∷ []

-- `first` and `temp`: what `malloc` and `realloc` return.
unfoldable pub main : (first temp : Option ℕ) → Ended
unfolding foo allocated report
main first temp = report (foo temp first (allocated first))
