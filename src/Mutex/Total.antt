-- ===== src/Mutex/Total.antt =====
-- Under the lock no increment is lost.
use lowlevel_academy.Prelude.{
  ℕ, zero, suc, ◌+◌, ◌*◌, ◌≡◌, ◌<◌, ◌≤◌, refl, ap, subst, ◌∙◌, Bool, true, false, List, [], ◌∷◌,
  some, get_elem?, set, replicate, arith,
}
use lowlevel_academy.Mutex.{
  Pc, starting, looping, adding, finished, System, Step, lock, load, store, unlock, initial, Reach,
  start, later,
}

-- The increments that a thread has before it, and whether it is between lock and unlock.
abbrev debt : ℕ → Pc → ℕ
debt n starting = n
debt n (looping k) = k
debt n (adding k v) = suc k
debt n finished = 0

abbrev pub busy : Pc → ℕ
busy starting = 0
busy (looping k) = 1
busy (adding k v) = 1
busy finished = 0

abbrev pub sum : (Pc → ℕ) → List Pc → ℕ
sum w [] = 0
sum w (p ∷ ps) = w p + sum w ps

pub sum-set :
    (w : Pc → ℕ) (ps : List Pc) (i : ℕ) (p q : Pc)
    → get_elem? ps i ≡ some p
    → sum w (set ps i q) + w p ≡ sum w ps + w q
sum-set w [] i p q h = ground arith
sum-set w (x ∷ ps) zero p q h = let e : x ≡ p = ground arith in rw e (omega arith)
sum-set w (x ∷ ps) (suc i) p q h = omega (arith, sum-set w ps i p q h)

pub sum-replicate : (w : Pc → ℕ) (t : ℕ) (p : Pc) → sum w (replicate t p) ≡ t * w p
sum-replicate w zero p = omega arith
sum-replicate w (suc t) p = omega (arith, sum-replicate w t p)

-- What a thread has loaded is the counter.
abbrev IsFresh : ℕ → Pc → Type 0
IsFresh c (adding k v) = v ≡ c
IsFresh c _ = Unit {0}

abbrev AllFresh : ℕ → List Pc → Type 0
AllFresh c [] = Unit {0}
AllFresh c (p ∷ ps) = IsFresh c p × AllFresh c ps

AllFresh-get :
    (c : ℕ) (ps : List Pc) (i : ℕ) (p : Pc) → AllFresh c ps → get_elem? ps i ≡ some p → IsFresh c p
AllFresh-get c [] i p v h = ground arith
AllFresh-get c (x ∷ ps) zero p v h = let e : x ≡ p = ground arith in subst (IsFresh c) e v.0
AllFresh-get c (x ∷ ps) (suc i) p v h = AllFresh-get c ps i p v.1 h

AllFresh-set :
    (c : ℕ) (ps : List Pc) (i : ℕ) (q : Pc) → AllFresh c ps → IsFresh c q → AllFresh c (set ps i q)
AllFresh-set c [] i q v w = tt
AllFresh-set c (x ∷ ps) zero q v w = (w, v.1)
AllFresh-set c (x ∷ ps) (suc i) q v w = (v.0, AllFresh-set c ps i q v.1 w)

-- A thread that is not busy has loaded nothing.
IsFresh-idle : (c : ℕ) (p : Pc) → busy p ≡ 0 → IsFresh c p
IsFresh-idle c starting h = tt
IsFresh-idle c (looping k) h = tt
IsFresh-idle c (adding k v) h = absurd (omega arith)
IsFresh-idle c finished h = tt

AllFresh-idle : (c : ℕ) (ps : List Pc) → sum busy ps ≡ 0 → AllFresh c ps
AllFresh-idle c [] h = tt
AllFresh-idle c (p ∷ ps) h = (IsFresh-idle c p (omega arith), AllFresh-idle c ps (omega arith))

-- If the one busy thread stores, no other thread holds an old value.
AllFresh-store :
    (c : ℕ) (ps : List Pc) (i k : ℕ) (p : Pc)
    → get_elem? ps i ≡ some p
    → busy p ≡ 1
    → sum busy ps ≤ 1
    → AllFresh c (set ps i (looping k))
AllFresh-store c [] i k p h b o = tt
AllFresh-store c (x ∷ ps) zero k p h b o =
    let e : x ≡ p = ground arith in
    let f : busy x ≡ 1 = ap busy e ∙ b in (tt, AllFresh-idle c ps (omega arith))
AllFresh-store c (x ∷ ps) (suc i) k p h b o =
    let f = sum-set busy ps i p finished h in
    (IsFresh-idle c x (omega arith), AllFresh-store c ps i k p h b (omega arith))

abbrev pub held : Bool → ℕ
held true = 1
held false = 0

pub record IsSound (n t : ℕ) (s : System) : Type 0 where
  pub one_busy : sum busy s.pcs ≡ held s.locked
  pub fresh : AllFresh s.counter s.pcs
  pub counted : s.counter + sum (debt n) s.pcs ≡ t * n

held-le : (b : Bool) → held b ≤ 1
held-le true = omega arith
held-le false = omega arith

step-IsSound :
    (n t : ℕ) (r s : System) → t * n < 2147483648 → IsSound n t r → Step n r s → IsSound n t s
step-IsSound n t r s small v (lock i p q) =
    let b = sum-set busy r.pcs i starting (looping n) p in
    let d = sum-set (debt n) r.pcs i starting (looping n) p in
    let f : held r.locked ≡ 0 = ap held q in
    record {
      one_busy = omega (arith, v.one_busy);
      fresh = AllFresh-set r.counter r.pcs i (looping n) v.fresh tt;
      counted = omega (arith, v.counted);
    }
step-IsSound n t r s small v (load i k p) =
    let b = sum-set busy r.pcs i (looping (suc k)) (adding k r.counter) p in
    let d = sum-set (debt n) r.pcs i (looping (suc k)) (adding k r.counter) p in
    record {
      one_busy = omega (arith, v.one_busy);
      fresh = AllFresh-set r.counter r.pcs i (adding k r.counter) v.fresh refl;
      counted = omega (arith, v.counted);
    }
step-IsSound n t r s small v (store i k w p) =
    let b = sum-set busy r.pcs i (adding k w) (looping k) p in
    let d = sum-set (debt n) r.pcs i (adding k w) (looping k) p in
    let e : w ≡ r.counter = AllFresh-get r.counter r.pcs i (adding k w) v.fresh p in
    let l = held-le r.locked in
    record {
      one_busy = omega (arith, v.one_busy);
      fresh = AllFresh-store _ r.pcs i k (adding k w) p refl (omega (arith, v.one_busy));
      counted = omega (arith, v.counted);
    }
step-IsSound n t r s small v (unlock i p) =
    let b = sum-set busy r.pcs i (looping 0) finished p in
    let d = sum-set (debt n) r.pcs i (looping 0) finished p in
    let l = held-le r.locked in
    record {
      one_busy = omega (arith, v.one_busy);
      fresh = AllFresh-set r.counter r.pcs i finished v.fresh tt;
      counted = omega (arith, v.counted);
    }

initial-IsSound : (n t : ℕ) → IsSound n t (initial t)
initial-IsSound n t = record {
  one_busy = sum-replicate busy t starting ∙ omega arith;
  fresh = AllFresh-idle 0 (replicate t starting) (sum-replicate busy t starting ∙ omega arith);
  counted = omega (arith, sum-replicate (debt n) t starting);
}

pub reach-IsSound : (n t : ℕ) (s : System) → t * n < 2147483648 → Reach n t s → IsSound n t s
reach-IsSound n t s small start = initial-IsSound n t
reach-IsSound n t s small (later {r = r} q p) =
    step-IsSound n t r s small (reach-IsSound n t r small q) p

-- Every thread has run to its end.
abbrev pub AllFinished : List Pc → Type 0
AllFinished [] = Unit {0}
AllFinished (p ∷ ps) = (p ≡ finished) × AllFinished ps

debt-AllFinished : (n : ℕ) (ps : List Pc) → AllFinished ps → sum (debt n) ps ≡ 0
debt-AllFinished n [] v = refl
debt-AllFinished n (p ∷ ps) v =
    let e : debt n p ≡ 0 = ap (debt n) v.0 in omega (arith, debt-AllFinished n ps v.1)

-- When threads whose rounds fit an `int` together have all finished, in whatever order they took
-- their steps, the counter is the number of threads times the rounds of each: no increment is lost.
pub mutex_total :
    (n t : ℕ) (s : System)
    → t * n < 2147483648
    → Reach n t s
    → AllFinished s.pcs
    → s.counter ≡ t * n
mutex_total n t s small q f =
    let v = reach-IsSound n t s small q in omega (arith, v.counted, debt-AllFinished n s.pcs f)
