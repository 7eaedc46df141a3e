-- ===== src/ThreadPool/Schedule.antt =====
-- The loop of `main` that submits 100 tasks, and how many of a longer run of tasks are taken.
use lowlevel_academy.Prelude.{
  ℕ, zero, suc, ◌+◌, ◌≡◌, ◌<◌, refl, ap, sym, ◌∙◌, List, [], ◌∷◌, ◌++◌, arith, length,
  length-append, take, append_assoc, append-nil,
}
use lowlevel_academy.ThreadPool.{Task, Pool, threadpool_init, add_task}
use lowlevel_academy.ThreadPool.Ring.{
  contents, push, IsValid, threadpool_init-IsValid, add_task-IsValid, contents-add_task,
}

-- The tasks are added one after the other, with no worker taking one in between.
unfoldable pub submit_all : List Task → Pool → Pool
submit_all [] p = p
submit_all (t ∷ ts) p = submit_all ts (add_task t p)

push_all : List Task → List Task → List Task
push_all [] q = q
push_all (t ∷ ts) q = push_all ts (push q t)

contents-submit_all :
    (ts : List Task) (p : Pool) → IsValid p → contents (submit_all ts p) ≡ push_all ts (contents p)
unfolding submit_all push_all
contents-submit_all [] p v = refl
contents-submit_all (t ∷ ts) p v =
    contents-submit_all ts (add_task t p) (add_task-IsValid t p v)
    ∙ ap (push_all ts) (contents-add_task t p v)

push_all-full : (ts q : List Task) → length q ≡ 100 → push_all ts q ≡ q
unfolding push_all push
push_all-full [] q h = refl
push_all-full (t ∷ ts) q h = ground (arith, push_all-full ts q h)

push-room : (q : List Task) (t : Task) → length q < 100 → push q t ≡ q ++ t ∷ []
unfolding push
push-room q t h = ground arith

-- A queue takes as many tasks as there is room for, the first ones.
push_all-take : (ts q : List Task) (k : ℕ) → length q + k ≡ 100 → push_all ts q ≡ q ++ take k ts
unfolding push_all
push_all-take ts q zero h = push_all-full ts q (omega arith) ∙ sym (append-nil q)
push_all-take [] q (suc k) h = sym (append-nil q)
push_all-take (t ∷ ts) q (suc k) h = rw (push-room q t (omega arith)) (
    push_all-take ts (q ++ t ∷ []) k (omega (arith, length-append q (t ∷ [])))
    ∙ append_assoc q (t ∷ []) (take k ts))

-- Tasks that are submitted to a new pool before any worker runs are queued in order, the first 100
-- of them, and the others are dropped.
pub submit_all_lem :
    (q ts : List Task) → length q ≡ 100 → contents (submit_all ts (threadpool_init q)) ≡ take 100 ts
submit_all_lem q ts h =
    let v = threadpool_init-IsValid q h in
    contents-submit_all ts (threadpool_init q) v.0
    ∙ ap (push_all ts) v.1
    ∙ push_all-take ts [] 100 (omega arith)
