-- ===== src/ThreadPool/Ring.antt =====
-- The ring is a bounded queue: first in, first out, at most 100 tasks.
use lowlevel_academy.Prelude.{
  ℕ, zero, suc, ◌+◌, ◌-◌, ◌%◌, ◌≡◌, ◌≢◌, ◌≤◌, ◌<◌, refl, ap, ap₂, List, [], ◌∷◌, ◌++◌, get_or, set,
  ltb, if◌then◌else◌, arith, length, length-set, get_or-set_self, get_or-set_ne,
}
use lowlevel_academy.ThreadPool.{
  stop_pool, Task, null_task, Pool, threadpool_init, add_task, front_task, take_task,
}

-- The `n` tasks from the index on, round the end of the array.
abbrev pub tasks_from : List Task → ℕ → ℕ → List Task
tasks_from q i zero = []
tasks_from q i (suc n) = get_or q i null_task ∷ tasks_from q ((i + 1) % 100) n

-- The tasks that are queued, the oldest first.
abbrev pub contents : Pool → List Task
contents p = tasks_from p.task_queue p.queue_front p.queued

pub record IsValid (p : Pool) : Type 0 where
  pub size : length p.task_queue ≡ 100
  pub few : p.queued ≤ 100
  pub front_in : p.queue_front < 100
  pub back_at : p.queue_back ≡ (p.queue_front + p.queued) % 100

pub length-tasks_from : (q : List Task) (i n : ℕ) → length (tasks_from q i n) ≡ n
length-tasks_from q i zero = refl
length-tasks_from q i (suc n) = ap suc (length-tasks_from q ((i + 1) % 100) n)

tasks_from_pos :
    (q : List Task) (i n : ℕ)
    → n ≢ 0
    → tasks_from q i n ≡ get_or q i null_task ∷ tasks_from q ((i + 1) % 100) (n - 1)
tasks_from_pos q i zero h = absurd (h refl)
tasks_from_pos q i (suc n) h = ap (λ k. tasks_from q i (suc k)) (omega arith)

-- A write just behind the queued tasks adds one at the end.
tasks_from-set :
    (q : List Task) (t : Task) (n i k : ℕ)
    → length q ≡ 100
    → i < 100
    → n < 100
    → k ≡ (i + n) % 100
    → tasks_from (set q k t) i (suc n) ≡ tasks_from q i n ++ t ∷ []
tasks_from-set q t zero i k hq hi hn e =
    let same : k ≡ i = omega arith in rw (same, get_or-set_self q i t null_task (omega arith))
tasks_from-set q t (suc n) i k hq hi hn e =
    ap₂ ◌∷◌ (get_or-set_ne q {i = k} {j = i} t null_task (omega arith))
      (tasks_from-set q t n ((i + 1) % 100) k hq (omega arith) (omega arith) (omega arith))

-- The queue of the specification.
unfoldable pub push : List Task → Task → List Task
push ts t = if ltb (length ts) 100 then ts ++ t ∷ [] else ts

pub length-contents : (p : Pool) → length (contents p) ≡ p.queued
length-contents p = length-tasks_from p.task_queue p.queue_front p.queued

pub threadpool_init-IsValid :
    (q : List Task)
    → length q ≡ 100
    → IsValid (threadpool_init q) × (contents (threadpool_init q) ≡ [])
unfolding threadpool_init
threadpool_init-IsValid q h = ground arith

pub add_task-IsValid : (t : Task) (p : Pool) → IsValid p → IsValid (add_task t p)
unfolding add_task
add_task-IsValid t p v = ground (arith, length-set p.task_queue p.queue_back t)

-- `threadpool_add_task` puts the task behind the others, and drops it when 100 are queued.
pub contents-add_task :
    (t : Task) (p : Pool) → IsValid p → contents (add_task t p) ≡ push (contents p) t
unfolding add_task push
contents-add_task t p v =
    ground
      (arith, length-contents p, tasks_from-set p.task_queue t p.queued p.queue_front p.queue_back)

pub take_task-IsValid : (p : Pool) → IsValid p → p.queued ≢ 0 → IsValid (take_task p)
unfolding take_task
take_task-IsValid p v h = ground arith

-- A worker takes the oldest task, and leaves the others in order.
pub contents-take_task :
    (p : Pool) → IsValid p → p.queued ≢ 0 → contents p ≡ front_task p ∷ contents (take_task p)
unfolding take_task front_task
contents-take_task p v h = tasks_from_pos p.task_queue p.queue_front p.queued h

pub stop_pool-IsValid :
    (p : Pool) → IsValid p → IsValid (stop_pool p) × (contents (stop_pool p) ≡ contents p)
unfolding stop_pool
stop_pool-IsValid p v =
    (record { size = v.size; few = v.few; front_in = v.front_in; back_at = v.back_at }, refl)
