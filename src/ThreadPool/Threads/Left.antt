-- ===== src/ThreadPool/Threads/Left.antt =====
-- How many steps the workers have before them, and whether all of them have ended.
use lowlevel_academy.Prelude.{
  ◌*◌, ℕ, zero, suc, ◌+◌, ◌≡◌, ◌≢◌, ◌≤◌, ◌<◌, ◌==◌, ◌⊎◌, inl, inr, refl, ap, ◌∙◌, true, false,
  arith, ℕ_discrete,
}
use lowlevel_academy.ThreadPool.Threads.{Pc, locking, checking, waiting, running, exited, update}

-- The steps that a worker has before it once the pool is stopped.
abbrev pub weight : Pc → ℕ
weight locking = 2
weight checking = 1
weight waiting = 3
weight (running t) = 3
weight exited = 0

-- Those of the first `n` workers.
abbrev pub left : (n : ℕ) → (ℕ → Pc) → ℕ
left zero pc = 0
left (suc n) pc = weight (pc n) + left n pc

left-update_out : (n i : ℕ) (pc : ℕ → Pc) (a : Pc) → n ≤ i → left n (update pc i a) ≡ left n pc
left-update_out zero i pc a h = refl
left-update_out (suc n) i pc a h =
    let other : (i == n) ≡ false = ground arith in
    rw (other, left-update_out n i pc a (omega (arith, h))) refl

pub left-update :
    (n i : ℕ) (pc : ℕ → Pc) (a : Pc)
    → i < n
    → left n (update pc i a) + weight (pc i) ≡ left n pc + weight a
left-update zero i pc a h = absurd (omega (arith, h))
left-update (suc n) i pc a h = elim (ℕ_discrete i n) [
  | yes e ↦
      let same : (i == n) ≡ true = ground arith in
      let here : weight (pc i) ≡ weight (pc n) = ap (λ z. weight (pc z)) e in
      rw same (omega (arith, here, left-update_out n i pc a (omega (arith, e))))
  | no ne ↦
      let other : (i == n) ≡ false = ground arith in
      rw other (omega (arith, left-update n i pc a (omega (arith, h, ne))))
]

weight-le : (p : Pc) → weight p ≤ 3
weight-le locking = omega arith
weight-le checking = omega arith
weight-le waiting = omega arith
weight-le (running t) = omega arith
weight-le exited = omega arith

pub left-le : (n : ℕ) (pc : ℕ → Pc) → left n pc ≤ 3 * n
left-le zero pc = omega arith
left-le (suc n) pc = omega (arith, weight-le (pc n), left-le n pc)

exited-cases : (p : Pc) → (p ≡ exited) ⊎ (p ≢ exited)
exited-cases locking = inr (λ q. cc)
exited-cases checking = inr (λ q. cc)
exited-cases waiting = inr (λ q. cc)
exited-cases (running t) = inr (λ q. cc)
exited-cases exited = inl refl

-- The first `n` workers have ended, or one of them has not.
pub survey :
    (n : ℕ) (pc : ℕ → Pc)
    → ((i : ℕ) → i < n → pc i ≡ exited) ⊎ ((i : ℕ) × (i < n) × (pc i ≢ exited))
survey zero pc = inl (λ i h. absurd (omega (arith, h)))
survey (suc n) pc = elim (exited-cases (pc n)) [
  | inr ne ↦ inr (n, omega arith, ne)
  | inl e ↦ elim (survey n pc) [
    | inr (i, h, ne) ↦ inr (i, omega (arith, h), ne)
    | inl all ↦ inl (λ i h. elim (ℕ_discrete i n) [
      | yes q ↦ ap pc q ∙ e
      | no ne ↦ all i (omega (arith, h, ne))
    ])
  ]
]
