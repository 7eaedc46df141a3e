-- ===== src/Mutex/Progress.antt =====
-- The threads never block each other.
use lowlevel_academy.Prelude.{
  ℕ, zero, suc, ◌*◌, ◌≡◌, ◌<◌, ◌⊎◌, inl, inr, refl, sym, ap, ◌∙◌, Bool-cases, List, [], ◌∷◌, some,
  get_elem?, arith,
}
use lowlevel_academy.Mutex.{
  Pc, starting, looping, adding, finished, System, Step, lock, load, store, unlock, Reach,
}
use lowlevel_academy.Mutex.Total.{busy, sum, held, reach-IsSound, AllFinished}

-- A thread that can go on: a busy one always, another one when the lock is free.
abbrev CanStep : ℕ → System → Type 0
CanStep n s = (s' : System) × Step n s s'

abbrev Finds : (Pc → Type 0) → List Pc → Type 0
Finds P ps = (i : ℕ) × (p : Pc) × (get_elem? ps i ≡ some p) × P p

abbrev IsBusy : Pc → Type 0
IsBusy p = busy p ≡ 1

data Scan (ps : List Pc) : Type 0 where
  all_finished : AllFinished ps → Scan ps
  some_busy : Finds IsBusy ps → Scan ps
  some_starting : Finds (λ p. p ≡ starting) ps → sum busy ps ≡ 0 → Scan ps

busy-AllFinished : (ps : List Pc) → AllFinished ps → sum busy ps ≡ 0
busy-AllFinished [] f = refl
busy-AllFinished (p ∷ ps) f =
    let e : busy p ≡ 0 = ap busy f.0 in omega (arith, busy-AllFinished ps f.1)

Scan-cons : (p : Pc) (ps : List Pc) → Scan ps → Scan (p ∷ ps)
Scan-cons p ps (some_busy (i, x, h, b)) = some_busy (suc i, x, h, b)
Scan-cons (looping k) ps s = some_busy (0, looping k, refl, refl)
Scan-cons (adding k v) ps s = some_busy (0, adding k v, refl, refl)
Scan-cons starting ps (all_finished f) =
    let e = busy-AllFinished ps f in some_starting (0, starting, refl, refl) (omega arith)
Scan-cons starting ps (some_starting (i, x, h, e) z) = some_starting (suc i, x, h, e) (omega arith)
Scan-cons finished ps (all_finished f) = all_finished (refl, f)
Scan-cons finished ps (some_starting (i, x, h, e) z) = some_starting (suc i, x, h, e) (omega arith)

survey : (ps : List Pc) → Scan ps
survey [] = all_finished tt
survey (p ∷ ps) = Scan-cons p ps (survey ps)

busy-CanStep :
    (n : ℕ) (s : System) (i : ℕ) (p : Pc) → get_elem? s.pcs i ≡ some p → busy p ≡ 1 → CanStep n s
busy-CanStep n s i starting h b = absurd (omega arith)
busy-CanStep n s i (looping zero) h b = (_, unlock i h)
busy-CanStep n s i (looping (suc k)) h b = (_, load i k h)
busy-CanStep n s i (adding k v) h b = (_, store i k v h)
busy-CanStep n s i finished h b = absurd (omega arith)

free-CanStep :
    (n : ℕ) (s : System) (i : ℕ)
    → get_elem? s.pcs i ≡ some starting
    → held s.locked ≡ 0
    → CanStep n s
free-CanStep n s i h z = elim (Bool-cases s.locked) [
  | inl q ↦ let e : held s.locked ≡ 1 = ap held q in absurd (omega arith)
  | inr q ↦ (_, lock i h q)
]

-- The threads never block each other for good: when their rounds fit an `int` together, in every
-- system they can come to, all of them have finished or one of them can take a step.
pub mutex_progress :
    (n t : ℕ) (s : System)
    → t * n < 2147483648
    → Reach n t s
    → AllFinished s.pcs ⊎ ((s' : System) × Step n s s')
mutex_progress n t s small q = elim (survey s.pcs) [
  | all_finished f ↦ inl f
  | some_busy (i, p, h, b) ↦ inr (busy-CanStep n s i p h b)
  | some_starting (i, p, h, e) z ↦
      let v = reach-IsSound n t s small q in
      inr (free-CanStep n s i (h ∙ ap some e) (sym v.one_busy ∙ z))
]
