-- ===== src/Exercises/ThreadLocal/Laws.antt =====
-- Each thread counts for itself.
use lowlevel_academy.Prelude.{
  sym, ap, ap₂, inl, inr, ◌⊎◌, ℕ, suc, zero, ◌+◌, ◌≡◌, List, [], ◌∷◌, ◌++◌, replicate, length,
  length-append, arith, refl, subst,
}
use lowlevel_academy.Exercises.ThreadLocal.{
  thread_count, Pc, at_load, at_store, at_print, ended, Thread, Turn, loads, stores, prints, Step,
  turn, initial, Reach, start, later,
}

abbrev Fits : Pc → (x_thd : ℕ) → Type 0
Fits at_load x = x ≡ 0
Fits (at_store a) x = (x ≡ 0) × (a ≡ 0)
Fits at_print x = x ≡ 1
Fits (ended a) x = (x ≡ 1) × (a ≡ 1)

abbrev AllFit : List Thread → Type 0
AllFit [] = Unit {0}
AllFit (w ∷ ws) = Fits w.pc w.x_thd × AllFit ws

abbrev steps_left : Pc → ℕ
steps_left at_load = 3
steps_left (at_store a) = 2
steps_left at_print = 1
steps_left (ended a) = 0

abbrev pub left : List Thread → ℕ
left [] = 0
left (w ∷ ws) = steps_left w.pc + left ws

Turn-Fits : (w w' : Thread) → Turn w w' → Fits w.pc w.x_thd → Fits w'.pc w'.x_thd
Turn-Fits w w' (loads q) v = let f = subst (λ p. Fits p w.x_thd) q v in (f, f)
Turn-Fits w w' (stores x q) v = let f = subst (λ p. Fits p w.x_thd) q v in rw (f.1) refl
Turn-Fits w w' (prints q) v = let f = subst (λ p. Fits p w.x_thd) q v in (f, f)

Turn-left : (w w' : Thread) → Turn w w' → suc (steps_left w'.pc) ≡ steps_left w.pc
Turn-left w w' (loads q) = rw q refl
Turn-left w w' (stores x q) = rw q refl
Turn-left w w' (prints q) = rw q refl

swap-AllFit :
    (before after : List Thread) (w w' : Thread)
    → Turn w w'
    → AllFit (before ++ w ∷ after)
    → AllFit (before ++ w' ∷ after)
swap-AllFit [] after w w' t v = (Turn-Fits w w' t v.0, v.1)
swap-AllFit (x ∷ before) after w w' t v = (v.0, swap-AllFit before after w w' t v.1)

swap-left :
    (before after : List Thread) (w w' : Thread)
    → Turn w w'
    → suc (left (before ++ w' ∷ after)) ≡ left (before ++ w ∷ after)
swap-left [] after w w' t = omega (arith, Turn-left w w' t)
swap-left (x ∷ before) after w w' t = omega (arith, swap-left before after w w' t)

record IsSound (ws : List Thread) : Type 0 where
  fits : AllFit ws
  counted : length ws ≡ thread_count

initial-AllFit : (n : ℕ) → AllFit (replicate n (record { pc = at_load; x_thd = 0 }))
initial-AllFit zero = tt
initial-AllFit (suc n) = (refl, initial-AllFit n)

reach-IsSound : (ws : List Thread) → Reach ws → IsSound ws
reach-IsSound ws start = record { fits = initial-AllFit 10; counted = refl }
reach-IsSound ws (later {ws = r} h (turn before after w w' q t)) =
    let v = reach-IsSound r h in
    let l : length (before ++ w ∷ after) ≡ thread_count =
      subst (λ z. length z ≡ thread_count) q v.counted in
    record {
      fits = swap-AllFit before after w w' t (subst AllFit q v.fits);
      counted =
          omega (arith, l, length-append before (w ∷ after), length-append before (w' ∷ after));
    }

step-left : (ws ws' : List Thread) → Step ws ws' → suc (left ws') ≡ left ws
step-left ws ws' (turn before after w w' q t) =
    subst (λ z. suc (left (before ++ w' ∷ after)) ≡ left z) (sym q) (swap-left before after w w' t)

-- A thread that has printed `1`.
abbrev pub one_printed : Thread
one_printed = record { pc = ended 1; x_thd = 1 }

abbrev thread : Pc → ℕ → Thread
thread p x = record { pc = p; x_thd = x }

progress :
    (p : Pc) (x : ℕ) → Fits p x → ((w : Thread) × Turn (thread p x) w) ⊎ (thread p x ≡ one_printed)
progress at_load x v = inl (_, loads refl)
progress (at_store a) x v = inl (_, stores a refl)
progress at_print x v = inl (_, prints refl)
progress (ended a) x v = inr (ap₂ (λ b y. thread (ended b) y) v.1 v.0)

step-cons : (w : Thread) (ws ws' : List Thread) → Step ws ws' → Step (w ∷ ws) (w ∷ ws')
step-cons w ws ws' (turn before after u u' q t) = turn (w ∷ before) after u u' (ap (λ z. w ∷ z) q) t

step_or_end :
    (ws : List Thread)
    → AllFit ws
    → ((ws' : List Thread) × Step ws ws') ⊎ (ws ≡ replicate (length ws) one_printed)
step_or_end [] v = inr refl
step_or_end (w ∷ ws) v = elim (progress w.pc w.x_thd v.0) [
  | inl (w', t) ↦ inl (_, turn [] ws w w' refl t)
  | inr e ↦ elim (step_or_end ws v.1) [
    | inl (ws', s) ↦ inl (_, step-cons w ws ws' s)
    | inr e' ↦ inr (ap₂ (λ a b. a ∷ b) e e')
  ]
]

-- In whatever order the ten threads run, each step leaves one step fewer, of 30 at first; and unless
-- a step is possible, all ten threads have ended, and each has printed 1.
pub local_lem :
    (ws : List Thread)
    → Reach ws
    → (left initial ≡ 30)
      × ((ws' : List Thread) → Step ws ws' → suc (left ws') ≡ left ws)
      × (((ws' : List Thread) × Step ws ws') ⊎ (ws ≡ replicate thread_count one_printed))
local_lem ws h =
    let v = reach-IsSound ws h in
    let fewer : (ws' : List Thread) → Step ws ws' → suc (left ws') ≡ left ws = step-left ws in
    let ends : ((ws' : List Thread) × Step ws ws') ⊎ (ws ≡ replicate thread_count one_printed) =
      subst (λ n. ((ws' : List Thread) × Step ws ws') ⊎ (ws ≡ replicate n one_printed)) v.counted
        (step_or_end ws v.fits) in
    (refl, fewer, ends)
