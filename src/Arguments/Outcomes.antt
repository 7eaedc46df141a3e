-- ===== src/Arguments/Outcomes.antt =====
-- What the threads can print.
use mathlib.Core.List.{map-append}
use lowlevel_academy.Prelude.{
  false, ℕ, zero, suc, ◌+◌, ◌≡◌, ◌↔◌, ◌≤◌, ◌<◌, List, [], ◌∷◌, ◌++◌, Option, none, some, length,
  get_elem?, arith, refl,
}
use lowlevel_academy.Arguments.{
  Main, store, join, returned, IsRunning, stores, creates, all_created, joins, returns, prints,
  Reach, start, later, Prints,
}
use lowlevel_academy.Prelude.{
  length-map, dec_lt, ℕ_discrete, map, append-nil, append_assoc, length-append, ltb, if◌then◌else◌,
  lt→ltb, ap, subst, sym, ◌∙◌,
}
use lowlevel_academy.Arguments.Late.{AllLate, Fits, Printed, reach-IsSound}

-- Of the numbers `vs`, the first of which is that of thread `i`, each is that of its thread or a
-- later one, and below `t`.
unfoldable pub AllBetween : (t i : ℕ) → List ℕ → Type 0
AllBetween t i [] = Unit {0}
AllBetween t i (v ∷ vs) = (i ≤ v) × (v < t) × AllBetween t (suc i) vs

-- What a thread that is to print `v` has printed before `myargs` is `c`.
abbrev seen : ℕ → ℕ → Option ℕ
seen c v = if ltb v c then some v else none

abbrev Reached : (t garbage : ℕ) → Main → ℕ → List (Option ℕ) → Type 0
Reached t garbage m a ps = Reach t garbage (record { main = m; arg1 = a; threads = ps })

seen-lt : (c v : ℕ) → v < c → seen c v ≡ some v
seen-lt c v h = rw (lt→ltb v c h) refl

seen-ge : (c v : ℕ) → c ≤ v → seen c v ≡ none
seen-ge c v h = let e : ltb v c ≡ false = ground arith in rw e refl

all_seen : (t i : ℕ) (vs : List ℕ) → AllBetween t i vs → map (seen t) vs ≡ map some vs
unfolding AllBetween
all_seen t i [] v = refl
all_seen t i (x ∷ vs) (le, lt, v) = rw (seen-lt t x lt, all_seen t (suc i) vs v) refl

shift :
    (ps : List (Option ℕ)) (p : Option ℕ) (qs : List (Option ℕ))
    → (ps ++ p ∷ []) ++ qs ≡ ps ++ p ∷ qs
shift ps p qs = append_assoc ps (p ∷ []) qs

get-printed :
    (vs : List ℕ) (j : ℕ) → j < length vs → (v : ℕ) × (get_elem? (map some vs) j ≡ some (some v))
get-printed [] j lt = absurd (omega (arith, lt))
get-printed (v ∷ vs) zero lt = (v, refl)
get-printed (v ∷ vs) (suc j) lt = get-printed vs j (omega (arith, lt))

all-Printed :
    (t i : ℕ) (ps : List (Option ℕ))
    → AllLate t i ps
    → Printed (length ps) ps
    → (vs : List ℕ) × (ps ≡ map some vs) × (length vs ≡ length ps) × AllBetween t i vs
unfolding AllLate Printed AllBetween
all-Printed t i [] v p = ([], refl, refl, tt)
all-Printed t i (none ∷ ps) v p = absurd p
all-Printed t i (some x ∷ ps) (le, lt, v) p =
    let (vs, q, l, b) = all-Printed t (suc i) ps v p in
    (x ∷ vs, ap (λ z. some x ∷ z) q, ap suc l, (le, lt, b))

module _ (t garbage : ℕ) where
  -- The thread that is to print `c` prints it.
  run_thread :
      (c v : ℕ) (ps qs : List (Option ℕ))
      → Reached t garbage store c (ps ++ seen c v ∷ qs)
      → Reached t garbage store c (ps ++ seen (suc c) v ∷ qs)
  unfolding IsRunning
  run_thread c v ps qs r =
      let P : Option ℕ → Type 0 = λ p. Reached t garbage store c (ps ++ p ∷ qs) in
      elim (dec_lt v c) [
        | yes lt ↦ subst P (seen-lt c v lt ∙ sym (seen-lt (suc c) v (omega (arith, lt)))) r
        | no ge ↦ elim (ℕ_discrete v c) [
          | yes e ↦
              let fresh : P none = subst P (seen-ge c v (omega (arith, e))) r in
              let printed : P (some c) = later fresh (prints ps qs tt refl) in
              subst P (ap some (sym e) ∙ sym (seen-lt (suc c) v (omega (arith, e)))) printed
          | no n ↦
              subst P
                (seen-ge c v (omega (arith, ge)) ∙ sym (seen-ge (suc c) v (omega (arith, ge, n)))) r
        ]
      ]

  run_threads :
      (c : ℕ) (ps : List (Option ℕ)) (vs : List ℕ)
      → Reached t garbage store c (ps ++ map (seen c) vs)
      → Reached t garbage store c (ps ++ map (seen (suc c)) vs)
  run_threads c ps [] r = r
  run_threads c ps (v ∷ vs) r =
      let P : List (Option ℕ) → Type 0 = λ z. Reached t garbage store c z in
      let p = seen (suc c) v in
      subst P (shift ps p (map (seen (suc c)) vs)) (
        run_threads c (ps ++ p ∷ []) vs
          (subst P (sym (shift ps p (map (seen c) vs))) (run_thread c v ps (map (seen c) vs) r)))

  -- `main` creates a thread, and it and those before it run.
  run_round :
      (a w : ℕ) (us : List ℕ)
      → length us ≤ w
      → length us < t
      → Reached t garbage store a (map (seen (length us)) us)
      → Reached t garbage store (length us) (map (seen (suc (length us))) (us ++ w ∷ []))
  run_round a w us le lt r =
      let c = length us in
      let l = length-map us (seen c) in
      let created = later (later r (stores refl (omega (arith, l, lt)))) (creates refl) in
      let numbered : Reached t garbage store c (map (seen c) us ++ none ∷ []) =
        subst (λ z. Reached t garbage store z (map (seen c) us ++ none ∷ [])) l created in
      run_threads c [] (us ++ w ∷ []) (
        subst (λ z. Reached t garbage store c z)
          (ap (λ z. map (seen c) us ++ z ∷ []) (sym (seen-ge c w le))
            ∙ sym (map-append (seen c) us (w ∷ [])))
          numbered)

  -- `main` creates the threads that are left.
  run_main :
      (a : ℕ) (us vs : List ℕ)
      → AllBetween t (length us) vs
      → length us + length vs ≡ t
      → Reached t garbage store a (map (seen (length us)) us)
      → (b : ℕ) × Reached t garbage store b (map (seen t) (us ++ vs))
  unfolding AllBetween
  run_main a us [] v e r =
      let full : length us ≡ t = omega (arith, e) in
      (
        a,
        subst (λ z. Reached t garbage store a (map (seen t) z)) (sym (append-nil us))
            (subst (λ z. Reached t garbage store a (map (seen z) us)) full r),
      )
  run_main a us (w ∷ vs) (le, lt, v) e r =
      let l : length (us ++ w ∷ []) ≡ suc (length us) = omega (arith, length-append us (w ∷ [])) in
      let next = run_round a w us le (omega (arith, e)) r in
      let (b, done) =
        run_main (length us) (us ++ w ∷ []) vs (subst (λ z. AllBetween t z vs) (sym l) v)
          (omega (arith, l, e))
          (subst (λ z. Reached t garbage store (length us) (map (seen z) (us ++ w ∷ []))) (sym l)
            next) in
      (
        b,
        subst (λ z. Reached t garbage store b (map (seen t) z)) (append_assoc us (w ∷ []) vs) done,
      )

  run_joins :
      (a j n : ℕ) (vs : List ℕ)
      → j + n ≡ t
      → length vs ≡ t
      → Reached t garbage (join j) a (map some vs)
      → Reached t garbage (join t) a (map some vs)
  run_joins a j zero vs e l r =
      subst (λ z. Reached t garbage (join z) a (map some vs)) (omega (arith, e)) r
  run_joins a j (suc n) vs e l r =
      let (v, g) = get-printed vs j (omega (arith, e, l)) in
      run_joins a (suc j) n vs (omega (arith, e)) l (later r (joins j v refl g))

  run_all :
      (vs : List ℕ)
      → length vs ≡ t
      → AllBetween t 0 vs
      → (a : ℕ) × Reached t garbage returned a (map some vs)
  run_all vs l v =
      let (a, created) = run_main garbage [] vs v (omega (arith, l)) start in
      let all : Reached t garbage store a (map some vs) =
        subst (λ z. Reached t garbage store a z) (all_seen t 0 vs v) created in
      let counted : length (map some vs) ≡ t = length-map vs some ∙ l in
      (
        a,
        later (run_joins a 0 t vs (omega arith) l (later all (all_created refl counted)))
            (returns refl),
      )

-- The outcomes of the program, for any number `t` of threads: it can return 0 with its threads having
-- printed `ps` if and only if each thread has printed a number, and the one of thread `i` is between
-- `i` and `t` - 1.
pub arguments_lem :
    (t garbage : ℕ) (ps : List (Option ℕ))
    → Prints t garbage ps
      ↔ ((vs : List ℕ) × (ps ≡ map some vs) × (length vs ≡ t) × AllBetween t 0 vs)
unfolding Prints
arguments_lem t garbage ps = (
  λ (s, h, m, q).
      let v = reach-IsSound t garbage s h in
      let (l, p) = subst (λ z. Fits t z s.arg1 s.threads) m v.fits in
      let (vs, e, l', b) =
        all-Printed t 0 s.threads v.late (subst (λ z. Printed z s.threads) (sym l) p) in
      (vs, sym q ∙ e, l' ∙ l, b),
  λ (vs, e, l, v). let (a, r) = run_all t garbage vs l v in (_, r, refl, sym e),
)
