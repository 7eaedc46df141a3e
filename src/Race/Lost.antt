-- ===== src/Race/Lost.antt =====
-- Increments that are lost without a lock.
use lowlevel_academy.Prelude.{ℕ, zero, suc, ◌+◌, ◌%◌, ◌≡◌, ◌<◌, refl, subst, [], ◌∷◌, arith}
use lowlevel_academy.Race.{looping, finished, System, load, store, finish, Reach, start, later}

abbrev both : ℕ → ℕ → System
both c k = record { counter = c; pcs = looping k ∷ looping k ∷ [] }

-- Both threads load before either of them stores.
both-Reach : (n c k : ℕ) → c < 2147483647 → Reach n 2 (both c (suc k)) → Reach n 2 (both (c + 1) k)
both-Reach n c k small q =
    let e : (c + 1) % 4294967296 ≡ c + 1 = omega arith in
    subst (λ x. Reach n 2 (both x k)) e
      (later (later (later (later q (load 0 k refl)) (load 1 k refl)) (store 0 k c refl))
        (store 1 k c refl))

all_rounds : (n c k : ℕ) → c + k < 2147483648 → Reach n 2 (both c k) → Reach n 2 (both (c + k) 0)
all_rounds n c zero small q =
    let e : c ≡ c + 0 = omega arith in subst (λ x. Reach n 2 (both x 0)) e q
all_rounds n c (suc k) small q =
    let e : (c + 1) + k ≡ c + suc k = omega arith in
    subst (λ x. Reach n 2 (both x 0)) e
      (all_rounds n (c + 1) k (omega arith) (both-Reach n c k (omega arith) q))

-- Two threads of as many rounds as an `int` holds can both finish with the counter at the rounds of
-- one of them: half of the increments are lost.
pub race_loses :
    (n : ℕ) → n < 2147483648 → Reach n 2 (record { counter = n; pcs = finished ∷ finished ∷ [] })
race_loses n small =
    let e : 0 + n ≡ n = omega arith in
    let q = subst (λ x. Reach n 2 (both x 0)) e (all_rounds n 0 n (omega arith) start) in
    later (later q (finish 0 refl)) (finish 1 refl)
