-- ===== src/Exercises/ThreadKey/Sound.antt =====
-- The blocks that are allocated are those that the threads hold.
use lowlevel_academy.Prelude.{
  ℕ, ◌+◌, ◌≡◌, ◌==◌, if◌then◌else◌, List, [], ◌∷◌, ◌++◌, Option, none, some, length, replicate,
  length-append, tally, tally-append, arith, refl, subst, map,
}
use lowlevel_academy.Exercises.ThreadKey.{
  fill, Pc, at_set, at_fill, at_print, returned, ended, Thread, Turn, mallocs, malloc_fails, sets,
  fills, faults, prints, destroys, System, turn, Reach, start, later,
}

-- The numbers from 0 to 9.
abbrev pub digits : List (Option ℕ)
digits = map some (0 ∷ 1 ∷ 2 ∷ 3 ∷ 4 ∷ 5 ∷ 6 ∷ 7 ∷ 8 ∷ 9 ∷ [])

fill_lem : fill 0 10 (replicate 10 none) ≡ digits
unfolding fill
fill_lem = refl

abbrev pub Fits : Pc → (value : Option ℕ) → Type 0
Fits (at_print cells) v = (cells ≡ digits) × ((b : ℕ) × (v ≡ some b))
Fits (returned out) v = (out ≡ digits) × ((b : ℕ) × (v ≡ some b))
Fits (ended out) v = (out ≡ digits) × (v ≡ none)
Fits (at_fill a) v = v ≡ a
Fits _ v = Unit {0}

-- The block that a thread has yet to free.
abbrev pub held : Pc → (value : Option ℕ) → Option ℕ
held (at_set a) v = a
held (at_fill a) v = a
held (at_print cells) v = v
held (returned out) v = v
held _ v = none

abbrev pub hits : ℕ → Option ℕ → ℕ
hits d none = 0
hits d (some b) = if b == d then 1 else 0

abbrev pub AllFit : List Thread → Type 0
AllFit [] = Unit {0}
AllFit (w ∷ ws) = Fits w.pc w.value × AllFit ws

abbrev pub holds : ℕ → List Thread → ℕ
holds d [] = 0
holds d (w ∷ ws) = hits d (held w.pc w.value) + holds d ws

Turn-Fits :
    (live live' : List ℕ) (w w' : Thread)
    → Turn live w live' w'
    → Fits w.pc w.value
    → Fits w'.pc w'.value
Turn-Fits live live' w w' (mallocs b q n) v = tt
Turn-Fits live live' w w' (malloc_fails q) v = tt
Turn-Fits live live' w w' (sets a q) v = refl
Turn-Fits live live' w w' (fills b q) v = (fill_lem, (b, subst (λ p. Fits p w.value) q v))
Turn-Fits live live' w w' (faults q) v = tt
Turn-Fits live live' w w' (prints cells q) v = subst (λ p. Fits p w.value) q v
Turn-Fits live live' w w' (destroys out b before after q k e) v =
    let f = subst (λ p. Fits p w.value) q v in (f.0, refl)

Turn-held :
    (d : ℕ) (live live' : List ℕ) (w w' : Thread)
    → Turn live w live' w'
    → Fits w.pc w.value
    → tally d live' + hits d (held w.pc w.value) ≡ tally d live + hits d (held w'.pc w'.value)
Turn-held d live live' w w' (mallocs b q n) v = rw q (omega arith)
Turn-held d live live' w w' (malloc_fails q) v = rw q refl
Turn-held d live live' w w' (sets a q) v = rw q refl
Turn-held d live live' w w' (fills b q) v =
    let f = subst (λ p. Fits p w.value) q v in rw (q, f) refl
Turn-held d live live' w w' (faults q) v = rw q refl
Turn-held d live live' w w' (prints cells q) v = rw q refl
Turn-held d live live' w w' (destroys out b before after q k e) v =
    rw (q, k, e) (omega (arith, tally-append d before (b ∷ after), tally-append d before after))

swap-AllFit :
    (before after : List Thread) (live live' : List ℕ) (w w' : Thread)
    → Turn live w live' w'
    → AllFit (before ++ w ∷ after)
    → AllFit (before ++ w' ∷ after)
swap-AllFit [] after live live' w w' t v = (Turn-Fits live live' w w' t v.0, v.1)
swap-AllFit (x ∷ before) after live live' w w' t v =
    (v.0, swap-AllFit before after live live' w w' t v.1)

swap-holds :
    (d : ℕ) (before after : List Thread) (live live' : List ℕ) (w w' : Thread)
    → Turn live w live' w'
    → AllFit (before ++ w ∷ after)
    → tally d live' + holds d (before ++ w ∷ after) ≡ tally d live + holds d (before ++ w' ∷ after)
swap-holds d [] after live live' w w' t v = omega (arith, Turn-held d live live' w w' t v.0)
swap-holds d (x ∷ before) after live live' w w' t v =
    omega (arith, swap-holds d before after live live' w w' t v.1)

pub record IsSound (s : System) : Type 0 where
  pub fits : AllFit s.threads
  pub kept : (d : ℕ) → tally d s.live ≡ holds d s.threads
  pub counted : length s.threads ≡ 2

pub reach-IsSound : (s : System) → Reach s → IsSound s
reach-IsSound s start = record { fits = (tt, (tt, tt)); kept = λ d. omega arith; counted = refl }
reach-IsSound s (later {r = r} h (turn before after w w' live' alive q t)) =
    let v = reach-IsSound r h in
    let fits = subst AllFit q v.fits in
    let l : length (before ++ w ∷ after) ≡ 2 = subst (λ z. length z ≡ 2) q v.counted in
    record {
      fits = swap-AllFit before after r.live live' w w' t fits;
      kept = λ d.
          let k : tally d r.live ≡ holds d (before ++ w ∷ after) =
            subst (λ z. tally d r.live ≡ holds d z) q (v.kept d) in
          omega (arith, k, swap-holds d before after r.live live' w w' t fits);
      counted =
          omega (arith, l, length-append before (w ∷ after), length-append before (w' ∷ after));
    }
