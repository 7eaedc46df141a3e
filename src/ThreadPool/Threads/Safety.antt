-- ===== src/ThreadPool/Threads/Safety.antt =====
-- What holds in every state that the threads can reach.
use lowlevel_academy.Prelude.{
  ℕ, ◌≡◌, ◌≢◌, ◌≤◌, inl, inr, refl, ap, sym, ◌∙◌, Bool, true, false, List, [], ◌∷◌, ◌++◌, arith,
  length, append_assoc, ltb, Bool-cases,
}
use lowlevel_academy.ThreadPool.{Task, Pool, add_task, accepts, front_task, take_task, stop_pool}
use lowlevel_academy.ThreadPool.Ring.{
  contents, push, IsValid, length-contents, threadpool_init-IsValid, add_task-IsValid,
  contents-add_task, take_task-IsValid, stop_pool-IsValid, contents-take_task,
}
use lowlevel_academy.ThreadPool.Threads.{
  Pc, woken, broadcast, locking, waiting, running, exited, checking, MainPc, adding, stopping,
  main_thread, worker, System, accept, Step, lock, wait, wake, exit, take, finish, begin_add,
  end_add, end_add_signal, begin_destroy, end_destroy, Reach, start, later,
}

-- The main thread holds the lock.
abbrev pub inside : MainPc → Bool
inside (adding t) = true
inside stopping = true
inside _ = false

-- A thread that is where the lock is held holds it; the queue is valid; and what was accepted is what
-- was started and then what is queued, in order.
pub record Inv (s : System) : Type 0 where
  pub ring : IsValid s.pool
  pub owned : (i : ℕ) → s.pc i ≡ checking → s.owner ≡ worker i
  pub main_owned : inside s.main ≡ true → s.owner ≡ main_thread
  pub fifo : s.accepted ≡ s.started ++ contents s.pool

accept-contents :
    (t : Task) (p : Pool) (a st : List Task)
    → IsValid p
    → a ≡ st ++ contents p
    → accept p t a ≡ st ++ contents (add_task t p)
unfolding accepts push
accept-contents t p a st v h =
    rw (contents-add_task t p v, length-contents p)
      (elim (Bool-cases (ltb p.queued 100)) [
        | inl q ↦ rw (q, h) (append_assoc st (contents p) (t ∷ []))
        | inr q ↦ rw q h
      ])

take-contents :
    (p : Pool) (a st : List Task)
    → IsValid p
    → p.queued ≢ 0
    → a ≡ st ++ contents p
    → a ≡ (st ++ front_task p ∷ []) ++ contents (take_task p)
take-contents p a st v ne h =
    h
    ∙ ap (λ c. st ++ c) (contents-take_task p v ne)
    ∙ sym (append_assoc st (front_task p ∷ []) (contents (take_task p)))

woken-checking : (p : Pc) → woken p ≡ checking → p ≡ checking
unfolding woken
woken-checking waiting q = cc
woken-checking locking q = q
woken-checking checking q = q
woken-checking (running t) q = q
woken-checking exited q = q

broadcast-checking : (pc : ℕ → Pc) (i : ℕ) → broadcast pc i ≡ checking → pc i ≡ checking
unfolding broadcast
broadcast-checking pc i q = woken-checking (pc i) q

-- Every step keeps the invariant.
Step-Inv : {s t : System} → Step s t → Inv s → Inv t
Step-Inv {s} (lock i lt p o) v = record {
  ring = v.ring;
  owned = λ j q. ground (arith, v.owned j);
  main_owned = ground arith;
  fifo = v.fifo;
}
Step-Inv {s} (wait i p z st) v = record {
  ring = v.ring;
  owned = λ j q. ground (arith, v.owned i, v.owned j);
  main_owned = ground (arith, v.owned i);
  fifo = v.fifo;
}
Step-Inv {s} (wake i p) v = record {
  ring = v.ring;
  owned = λ j q. ground (arith, v.owned j);
  main_owned = v.main_owned;
  fifo = v.fifo;
}
Step-Inv {s} (exit i p st) v = record {
  ring = v.ring;
  owned = λ j q. ground (arith, v.owned i, v.owned j);
  main_owned = ground (arith, v.owned i);
  fifo = v.fifo;
}
Step-Inv {s} (take i p ne st) v = record {
  ring = take_task-IsValid s.pool v.ring ne;
  owned = λ j q. ground (arith, v.owned i, v.owned j);
  main_owned = ground (arith, v.owned i);
  fifo = take-contents s.pool s.accepted s.started v.ring ne v.fifo;
}
Step-Inv {s} (finish i t p) v = record {
  ring = v.ring;
  owned = λ j q. ground (arith, v.owned j);
  main_owned = v.main_owned;
  fifo = v.fifo;
}
Step-Inv {s} (begin_add t m o) v = record {
  ring = v.ring;
  owned = λ j q. ground (arith, v.owned j);
  main_owned = λ _. refl;
  fifo = v.fifo;
}
Step-Inv {s} (end_add t m _) v = record {
  ring = add_task-IsValid t s.pool v.ring;
  owned = λ j q. ground (arith, v.owned j);
  main_owned = ground arith;
  fifo = accept-contents t s.pool s.accepted s.started v.ring v.fifo;
}
Step-Inv {s} (end_add_signal t i m _ w) v = record {
  ring = add_task-IsValid t s.pool v.ring;
  owned = λ j q. ground (arith, v.owned j);
  main_owned = ground arith;
  fifo = accept-contents t s.pool s.accepted s.started v.ring v.fifo;
}
Step-Inv {s} (begin_destroy m o) v = record {
  ring = v.ring;
  owned = λ j q. ground (arith, v.owned j);
  main_owned = λ _. refl;
  fifo = v.fifo;
}
Step-Inv {s} (end_destroy m) v = record {
  ring = (stop_pool-IsValid s.pool v.ring).0;
  owned = λ j q.
      let held : s.owner ≡ worker j = v.owned j (broadcast-checking s.pc j q) in
      let main : s.owner ≡ main_thread = v.main_owned (ap inside m) in cc;
  main_owned = ground arith;
  fifo = rw (stop_pool-IsValid s.pool v.ring).1 v.fifo;
}

pub Reach-Inv : {q : List Task} {s : System} → length q ≡ 100 → Reach q s → Inv s
Reach-Inv {q} h start = record {
  ring = (threadpool_init-IsValid q h).0;
  owned = λ j e. cc;
  main_owned = λ e. cc;
  fifo = sym (threadpool_init-IsValid q h).1;
}
Reach-Inv h (later r st) = Step-Inv st (Reach-Inv h r)

-- However the threads are interleaved, the lock lets no two workers be between lock and unlock
-- together, and none while the main thread adds a task or stops the pool.
pub mutual_exclusion :
    {q : List Task} {s : System}
    → length q ≡ 100
    → Reach q s
    → (i j : ℕ) → s.pc i ≡ checking
    → s.pc j ≡ checking
    → (i ≡ j) × (inside s.main ≡ false)
mutual_exclusion {s = s} h r i j e k =
    let v : Inv s = Reach-Inv h r in
    (ground (arith, v.owned i, v.owned j), ground (arith, v.owned i))

-- However the threads are interleaved, the tasks that were started, in the order of their start, and
-- then the tasks that are queued are the tasks that were accepted, in order: none is lost, repeated
-- or overtaken on its way out of the queue, and at most 100 are queued.
pub fifo_order :
    {q : List Task} {s : System}
    → length q ≡ 100
    → Reach q s
    → (s.accepted ≡ s.started ++ contents s.pool) × (length (contents s.pool) ≤ 100)
fifo_order {s = s} h r =
    let v : Inv s = Reach-Inv h r in (v.fifo, omega (arith, length-contents s.pool, v.ring.few))

pub add_task-stop : (t : Task) (p : Pool) → (add_task t p).stop ≡ p.stop
unfolding add_task
add_task-stop t p = ground arith

pub take_task-stop : (p : Pool) → (take_task p).stop ≡ p.stop
unfolding take_task
take_task-stop p = refl

pub stop_pool-stop : (p : Pool) → (stop_pool p).stop ≡ true
unfolding stop_pool
stop_pool-stop p = refl

-- Once the pool is stopped it stays so, and no step starts a task: what is queued is dropped.
pub stopped_for_good :
    {s t : System} → Step s t → s.pool.stop ≡ true → (t.pool.stop ≡ true) × (t.started ≡ s.started)
stopped_for_good {s} (take i p ne st) e = cc
stopped_for_good {s} (end_add t m _) e = (add_task-stop t s.pool ∙ e, refl)
stopped_for_good {s} (end_add_signal t i m _ w) e = (add_task-stop t s.pool ∙ e, refl)
stopped_for_good {s} (end_destroy m) e = (stop_pool-stop s.pool, refl)
stopped_for_good {s} _ e = (e, refl)
