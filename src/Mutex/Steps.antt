-- ===== src/Mutex/Steps.antt =====
-- How many steps a run of the threads takes.
use lowlevel_academy.Prelude.{ℕ, suc, ◌+◌, ◌*◌, ◌≡◌, ◌≤◌, ◌↔◌, refl, ap, List, [], ◌∷◌, arith}
use lowlevel_academy.Mutex.{
  Pc, starting, looping, adding, finished, System, Step, lock, load, store, unlock, Reach, start,
  later,
}
use lowlevel_academy.Mutex.Total.{sum, sum-set, sum-replicate, AllFinished}

-- The steps that a thread has before it: a load and a store a round, lock and unlock.
abbrev steps_left : ℕ → Pc → ℕ
steps_left n starting = 2 * n + 2
steps_left n (looping k) = 2 * k + 1
steps_left n (adding k v) = 2 * k + 2
steps_left n finished = 0

abbrev pub steps : {n t : ℕ} {s : System} → Reach n t s → ℕ
steps start = 0
steps (later q p) = suc (steps q)

step_left :
    (n : ℕ) (r s : System) → Step n r s → suc (sum (steps_left n) s.pcs) ≡ sum (steps_left n) r.pcs
step_left n r s (lock i p q) = omega (arith, sum-set (steps_left n) r.pcs i starting (looping n) p)
step_left n r s (load i k p) =
    omega (arith, sum-set (steps_left n) r.pcs i (looping (suc k)) (adding k r.counter) p)
step_left n r s (store i k w p) =
    omega (arith, sum-set (steps_left n) r.pcs i (adding k w) (looping k) p)
step_left n r s (unlock i p) = omega (arith, sum-set (steps_left n) r.pcs i (looping 0) finished p)

-- The steps taken and the steps left are the same number in every run.
steps_lem :
    (n t : ℕ) (s : System) (q : Reach n t s) → steps q + sum (steps_left n) s.pcs ≡ t * (2 * n + 2)
steps_lem n t s start = omega (arith, sum-replicate (steps_left n) t starting)
steps_lem n t s (later {r = r} q p) = omega (arith, steps_lem n t r q, step_left n r s p)

finished_left : (n : ℕ) (ps : List Pc) → AllFinished ps → sum (steps_left n) ps ≡ 0
finished_left n [] f = refl
finished_left n (p ∷ ps) f =
    let e : steps_left n p ≡ 0 = ap (steps_left n) f.0 in omega (arith, finished_left n ps f.1)

left-AllFinished : (n : ℕ) (ps : List Pc) → sum (steps_left n) ps ≡ 0 → AllFinished ps
left-AllFinished n [] h = tt
left-AllFinished n (starting ∷ ps) h = absurd (omega arith)
left-AllFinished n (looping k ∷ ps) h = absurd (omega arith)
left-AllFinished n (adding k v ∷ ps) h = absurd (omega arith)
left-AllFinished n (finished ∷ ps) h = (refl, left-AllFinished n ps (omega arith))

-- Every run of the threads ends: `t` threads of `n` rounds take at most t * (2 * n + 2) steps, in
-- whatever order, and they have all finished exactly when that many are taken.
pub mutex_terminates :
    (n t : ℕ) (s : System) (q : Reach n t s)
    → (steps q ≤ t * (2 * n + 2)) × ((steps q ≡ t * (2 * n + 2)) ↔ AllFinished s.pcs)
mutex_terminates n t s q =
    let e = steps_lem n t s q in
    (
      omega arith,
      (
        (λ h. left-AllFinished n s.pcs (omega arith)),
        (λ f. omega (arith, finished_left n s.pcs f)),
      ),
    )
