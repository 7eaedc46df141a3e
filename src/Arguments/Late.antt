-- ===== src/Arguments/Late.antt =====
-- A thread prints its own number or a later one.
use lowlevel_academy.Prelude.{
  ℕ, zero, suc, ◌+◌, ◌≡◌, ◌≤◌, ◌<◌, List, [], ◌∷◌, ◌++◌, Option, none, some, length, get_elem?,
  arith, refl, ap, subst, length-append,
}
use lowlevel_academy.Arguments.{
  Main, store, create, join, returned, failed, System, IsRunning, Step, stores, creates,
  create_fails, all_created, joins, returns, prints, Reach, start, later,
}

-- `threads`, of which the first is number `i`, printed a number from their own on and below `t`, if
-- they printed at all.
unfoldable pub AllLate : (t i : ℕ) → List (Option ℕ) → Type 0
AllLate t i [] = Unit {0}
AllLate t i (none ∷ ps) = AllLate t (suc i) ps
AllLate t i (some v ∷ ps) = (i ≤ v) × (v < t) × AllLate t (suc i) ps

-- The threads before number `n` have printed.
unfoldable pub Printed : ℕ → List (Option ℕ) → Type 0
Printed zero ps = Unit {0}
Printed (suc n) [] = ⊥
Printed (suc n) (none ∷ ps) = ⊥
Printed (suc n) (some v ∷ ps) = Printed n ps

AllLate-created : (t i : ℕ) (ps : List (Option ℕ)) → AllLate t i ps → AllLate t i (ps ++ none ∷ [])
unfolding AllLate
AllLate-created t i [] v = tt
AllLate-created t i (none ∷ ps) v = AllLate-created t (suc i) ps v
AllLate-created t i (some x ∷ ps) (le, lt, v) = (le, lt, AllLate-created t (suc i) ps v)

AllLate-prints :
    (t i a : ℕ) (before after : List (Option ℕ))
    → i + length before ≤ a
    → a < t
    → AllLate t i (before ++ none ∷ after)
    → AllLate t i (before ++ some a ∷ after)
unfolding AllLate
AllLate-prints t i a [] after le lt v = (omega (arith, le), lt, v)
AllLate-prints t i a (none ∷ before) after le lt v =
    AllLate-prints t (suc i) a before after (omega (arith, le)) lt v
AllLate-prints t i a (some x ∷ before) after le lt (p, q, v) =
    (p, q, AllLate-prints t (suc i) a before after (omega (arith, le)) lt v)

Printed-prints :
    (n a : ℕ) (before after : List (Option ℕ))
    → Printed n (before ++ none ∷ after)
    → Printed n (before ++ some a ∷ after)
unfolding Printed
Printed-prints zero a before after v = tt
Printed-prints (suc n) a [] after v = absurd v
Printed-prints (suc n) a (none ∷ before) after v = absurd v
Printed-prints (suc n) a (some x ∷ before) after v = Printed-prints n a before after v

Printed-joins :
    (j v : ℕ) (ps : List (Option ℕ))
    → Printed j ps
    → get_elem? ps j ≡ some (some v)
    → Printed (suc j) ps
unfolding Printed
Printed-joins zero v [] p h = ground arith
Printed-joins zero v (none ∷ ps) p h = ground arith
Printed-joins zero v (some x ∷ ps) p h = tt
Printed-joins (suc j) v [] p h = absurd p
Printed-joins (suc j) v (none ∷ ps) p h = absurd p
Printed-joins (suc j) v (some x ∷ ps) p h = Printed-joins j v ps p h

-- Where `main` stands, what `myargs` holds and how many threads there are.
abbrev pub Fits : (t : ℕ) → Main → (arg1 : ℕ) → List (Option ℕ) → Type 0
Fits t store a ps = (length ps ≤ t) × (length ps ≤ suc a) × (0 < length ps → a < t)
Fits t create a ps = (length ps < t) × (a ≡ length ps)
Fits t (join j) a ps = (length ps ≡ t) × (t ≤ suc a) × (0 < t → a < t) × Printed j ps
Fits t returned a ps = (length ps ≡ t) × Printed t ps
Fits t failed a ps = Unit {0}

pub record IsSound (t : ℕ) (s : System) : Type 0 where
  pub late : AllLate t 0 s.threads
  pub fits : Fits t s.main s.arg1 s.threads

length-prints :
    (a : ℕ) (before after : List (Option ℕ))
    → length (before ++ some a ∷ after) ≡ length (before ++ none ∷ after)
length-prints a [] after = refl
length-prints a (p ∷ before) after = ap suc (length-prints a before after)

-- While the process runs, `myargs` is late enough for each thread.
arg1-late :
    (t : ℕ) (m : Main) (a : ℕ) (before after : List (Option ℕ))
    → IsRunning m
    → Fits t m a (before ++ none ∷ after)
    → (length before ≤ a) × (a < t)
unfolding IsRunning
arg1-late t store a before after h v = omega (arith, v, length-append before (none ∷ after))
arg1-late t create a before after h v = omega (arith, v, length-append before (none ∷ after))
arg1-late t (join j) a before after h v = omega (arith, v, length-append before (none ∷ after))
arg1-late t returned a before after h v = absurd h
arg1-late t failed a before after h v = absurd h

Fits-prints :
    (t x : ℕ) (m : Main) (a : ℕ) (before after : List (Option ℕ))
    → Fits t m a (before ++ none ∷ after)
    → Fits t m a (before ++ some x ∷ after)
Fits-prints t x store a before after v = rw (length-prints x before after) v
Fits-prints t x create a before after v = rw (length-prints x before after) v
Fits-prints t x (join j) a before after v =
    rw (length-prints x before after) (v.0, v.1, v.2, Printed-prints j x before after v.3)
Fits-prints t x returned a before after v =
    rw (length-prints x before after) (v.0, Printed-prints t x before after v.1)
Fits-prints t x failed a before after v = tt

at : (t a : ℕ) (ps : List (Option ℕ)) {m n : Main} → m ≡ n → Fits t m a ps → Fits t n a ps
at t a ps q v = subst (λ k. Fits t k a ps) q v

step-IsSound : (t : ℕ) (r s : System) → IsSound t r → Step t r s → IsSound t s
unfolding Printed
step-IsSound t r s v (stores q lt) = record { late = v.late; fits = (lt, refl) }
step-IsSound t r s v (creates q) =
    let f = at t r.arg1 r.threads q v.fits in
    record {
      late = AllLate-created t 0 r.threads v.late;
      fits = omega (arith, f, length-append r.threads (none ∷ []));
    }
step-IsSound t r s v (create_fails q) = record { late = v.late; fits = tt }
step-IsSound t r s v (all_created q e) =
    let f = at t r.arg1 r.threads q v.fits in
    record { late = v.late; fits = (e, omega (arith, f, e), λ p. f.2 (omega (arith, e, p)), tt) }
step-IsSound t r s v (joins j x q g) =
    let f = at t r.arg1 r.threads q v.fits in
    record { late = v.late; fits = (f.0, f.1, f.2, Printed-joins j x r.threads f.3 g) }
step-IsSound t r s v (returns q) =
    let f = at t r.arg1 r.threads q v.fits in record { late = v.late; fits = (f.0, f.3) }
step-IsSound t r s v (prints before after running q) =
    let (le, lt) =
      arg1-late t r.main r.arg1 before after running
        (subst (λ z. Fits t r.main r.arg1 z) q v.fits) in
    record {
      late =
          AllLate-prints t 0 r.arg1 before after (omega (arith, le)) lt
            (subst (AllLate t 0) q v.late);
      fits =
          Fits-prints t r.arg1 r.main r.arg1 before after
            (subst (λ z. Fits t r.main r.arg1 z) q v.fits);
    }

pub reach-IsSound : (t garbage : ℕ) (s : System) → Reach t garbage s → IsSound t s
unfolding AllLate
reach-IsSound t garbage s start = record {
  late = tt;
  fits = (omega arith, omega arith, omega arith);
}
reach-IsSound t garbage s (later {r} h p) = step-IsSound t r s (reach-IsSound t garbage r h) p
