-- ===== src/Exercises/ThreadKey/Ending.antt =====
-- The program always comes to its end, and frees what it allocated.
use lowlevel_academy.Prelude.{
  append_assoc, false, true, ℕ, zero, suc, ◌+◌, ◌≡◌, ◌≢◌, ◌≤◌, ◌==◌, if◌then◌else◌, List, [], ◌∷◌,
  ◌++◌, Option, none, some, length, replicate, tally, arith, refl, ap, ap₂, subst, sym, ◌∙◌, inl,
  inr, ◌⊎◌, ℕ_discrete,
}
use lowlevel_academy.Exercises.ThreadKey.{
  Pc, at_malloc, at_set, at_fill, at_print, returned, ended, faulted, Thread, Turn, mallocs, sets,
  fills, faults, prints, destroys, System, AllAlive, Step, turn, Reach,
}
use lowlevel_academy.Exercises.ThreadKey.Sound.{
  digits, Fits, held, hits, AllFit, holds, reach-IsSound,
}

abbrev thread : Pc → Option ℕ → Thread
thread p v = record { pc = p; value = v }

abbrev pub done : Thread
done = thread (ended digits) none

-- A block that stands in a list, taken out of it.
split :
    (b : ℕ) (live : List ℕ)
    → 1 ≤ tally b live
    → (before : List ℕ) × ((after : List ℕ) × (live ≡ before ++ b ∷ after))
split b [] h = absurd (omega (arith, h))
split b (c ∷ live) h = elim (ℕ_discrete c b) [
  | yes e ↦ ([], (live, ap (λ z. z ∷ live) e))
  | no n ↦
      let other : (c == b) ≡ false = ground arith in
      let (before, (after, e)) =
        split b live
          (omega (arith, subst (λ z. 1 ≤ (if z then 1 else 0) + tally b live) other h)) in
      (c ∷ before, (after, ap (λ z. c ∷ z) e))
]

-- A block that is not allocated: one more than the greatest.
abbrev top : List ℕ → ℕ
top [] = 0
top (b ∷ live) = b + 1 + top live

fresh : (live : List ℕ) (n : ℕ) → top live ≤ n → tally n live ≡ 0
fresh [] n h = refl
fresh (b ∷ live) n h =
    let other : (b == n) ≡ false = ground arith in
    rw other (omega (arith, fresh live n (omega (arith, h))))

empty : (live : List ℕ) → ((d : ℕ) → tally d live ≡ 0) → live ≡ []
empty [] h = refl
empty (b ∷ live) h =
    let same : (b == b) ≡ true = ground arith in
    absurd (omega (arith, subst (λ z. (if z then 1 else 0) + tally b live ≡ 0) same (h b)))

hits_self : (b : ℕ) → hits b (some b) ≡ 1
hits_self b = let same : (b == b) ≡ true = ground arith in rw same refl

progress :
    (live : List ℕ) (p : Pc) (v : Option ℕ)
    → Fits p v
    → p ≢ faulted
    → ((d : ℕ) → hits d (held p v) ≤ tally d live)
    → ((live' : List ℕ) × ((w : Thread) × Turn live (thread p v) live' w)) ⊎ (thread p v ≡ done)
progress live at_malloc v f n h =
    inl (_, (_, mallocs (top live) refl (fresh live (top live) (omega arith))))
progress live (at_set a) v f n h = inl (_, (_, sets a refl))
progress live (at_fill none) v f n h = inl (_, (_, faults refl))
progress live (at_fill (some b)) v f n h = inl (_, (_, fills b refl))
progress live (at_print cells) v f n h = inl (_, (_, prints cells refl))
progress live (returned out) v (q, (b, e)) n h =
    let one : 1 ≤ tally b live =
      omega (arith, hits_self b, subst (λ z. hits b z ≤ tally b live) e (h b)) in
    let (before, (after, k)) = split b live one in
    inl (_, (_, destroys out b before after refl e k))
progress live (ended out) v (q, e) n h = inr (ap₂ (λ a z. thread (ended a) z) q e)
progress live faulted v f n h = absurd (n refl)

-- The threads `ws`, behind the threads `front`.
walk :
    (live : List ℕ) (front ws : List Thread)
    → AllAlive (front ++ ws)
    → AllFit ws
    → AllAlive ws
    → ((d : ℕ) → holds d ws ≤ tally d live)
    → ((s : System) × Step (record { live = live; threads = front ++ ws }) s)
      ⊎ (ws ≡ replicate (length ws) done)
unfolding AllAlive
walk live front [] alive f a h = inr refl
walk live front (w ∷ ws) alive f a h =
    let shift = append_assoc front (w ∷ []) ws in
    elim (progress live w.pc w.value f.0 a.0 (λ d. omega (arith, h d))) [
      | inl (live', (w', t)) ↦ inl (_, turn front ws w w' live' alive refl t)
      | inr e ↦
          elim (walk live (front ++ w ∷ []) ws (subst AllAlive (sym shift) alive) f.1 a.1
            (λ d. omega (arith, h d))) [
              | inl (s, t) ↦
                  inl (s, subst (λ z. Step (record { live = live; threads = z }) s) shift t)
              | inr e' ↦ inr (ap₂ (λ x y. x ∷ y) e e')
            ]
    ]

none_held : (d n : ℕ) → holds d (replicate n done) ≡ 0
none_held d zero = refl
none_held d (suc n) = omega (arith, none_held d n)

-- The threads have ended, each has printed 0 to 9, and no block is allocated.
pub record IsOver (s : System) : Type 0 where
  pub threads : s.threads ≡ replicate 2 done
  pub live : s.live ≡ []

-- However the two threads are interleaved, and whatever blocks `malloc` returns: unless a thread has
-- written through NULL, the threads can go on until both have ended, so that they do not come to a
-- `free` of a block that is not allocated with nothing else to do; and then each has printed the
-- numbers 0 to 9, and what was allocated has been freed.
pub key_lem : (s : System) → Reach s → AllAlive s.threads → ((s' : System) × Step s s') ⊎ IsOver s
key_lem s r alive =
    let v = reach-IsSound s r in
    elim (walk s.live [] s.threads alive v.fits alive (λ d. omega (arith, v.kept d))) [
      | inl t ↦ inl t
      | inr e ↦
          let e' : s.threads ≡ replicate 2 done =
            subst (λ n. s.threads ≡ replicate n done) v.counted e in
          inr (record {
            threads = e';
            live = empty s.live (λ d. v.kept d ∙ ap (holds d) e' ∙ none_held d 2);
          })
    ]
