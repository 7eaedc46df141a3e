-- ===== src/ThreadPool/Threads/Ending.antt =====
-- The joins of `threadpool_destroy` return.
use lowlevel_academy.Prelude.{
  ℕ, suc, ◌≡◌, ◌≢◌, ◌≤◌, ◌<◌, ◌⊎◌, inl, inr, refl, ap, ◌∙◌, true, false, List, arith, dec_lt,
}
use lowlevel_academy.ThreadPool.{threads, Task}
use lowlevel_academy.ThreadPool.Threads.{
  Pc, locking, checking, waiting, running, exited, joining, Owner, nobody, main_thread, worker,
  System, update, woken, broadcast, Step, lock, wait, wake, exit, take, finish, begin_add, end_add,
  end_add_signal, begin_destroy, end_destroy, Reach, start, later,
}
use lowlevel_academy.ThreadPool.Threads.Left.{weight, left, left-update, left-le, survey}
use lowlevel_academy.ThreadPool.Threads.Safety.{inside, take_task-stop, stop_pool-stop}

woken-waiting : (p : Pc) → woken p ≢ waiting
unfolding woken
woken-waiting waiting q = cc
woken-waiting locking q = cc
woken-waiting checking q = cc
woken-waiting (running t) q = cc
woken-waiting exited q = cc

broadcast-waiting : (pc : ℕ → Pc) (i : ℕ) → broadcast pc i ≢ waiting
unfolding broadcast
broadcast-waiting pc i = woken-waiting (pc i)

broadcast-locking : (pc : ℕ → Pc) (i : ℕ) → pc i ≡ locking → broadcast pc i ≡ locking
unfolding broadcast woken
broadcast-locking pc i e = rw e refl

-- Who holds the lock is where it is held, there are no more than eight workers, and when the main
-- thread joins them the pool is stopped and none of them waits.
record IsOwned (s : System) : Type 0 where
  idle : (i : ℕ) → threads ≤ i → s.pc i ≡ locking
  holder : (i : ℕ) → s.owner ≡ worker i → s.pc i ≡ checking
  main_holds : s.owner ≡ main_thread → inside s.main ≡ true
  stopped : s.main ≡ joining → s.pool.stop ≡ true
  awake : s.main ≡ joining → (i : ℕ) → s.pc i ≢ waiting

Step-IsOwned : {s t : System} → Step s t → IsOwned s → IsOwned t
Step-IsOwned {s} (lock i lt p o) v = record {
  idle = λ j h. ground (arith, v.idle j);
  holder = λ j q. ground (arith, v.holder j);
  main_holds = λ q. cc;
  stopped = v.stopped;
  awake = λ q j w. ground (arith, v.awake q j);
}
Step-IsOwned {s} (wait i p z st) v = record {
  idle = λ j h. ground (arith, v.idle j);
  holder = λ j q. cc;
  main_holds = λ q. cc;
  stopped = v.stopped;
  awake = λ q j w. let stop = v.stopped q in cc;
}
Step-IsOwned {s} (wake i p) v = record {
  idle = λ j h. ground (arith, v.idle j);
  holder = λ j q. ground (arith, v.holder j);
  main_holds = v.main_holds;
  stopped = v.stopped;
  awake = λ q j w. ground (arith, v.awake q j);
}
Step-IsOwned {s} (exit i p st) v = record {
  idle = λ j h. ground (arith, v.idle j);
  holder = λ j q. cc;
  main_holds = λ q. cc;
  stopped = v.stopped;
  awake = λ q j w. ground (arith, v.awake q j);
}
Step-IsOwned {s} (take i p ne st) v = record {
  idle = λ j h. ground (arith, v.idle j);
  holder = λ j q. cc;
  main_holds = λ q. cc;
  stopped = λ q. take_task-stop s.pool ∙ v.stopped q;
  awake = λ q j w. ground (arith, v.awake q j);
}
Step-IsOwned {s} (finish i t p) v = record {
  idle = λ j h. ground (arith, v.idle j);
  holder = λ j q. ground (arith, v.holder j);
  main_holds = v.main_holds;
  stopped = v.stopped;
  awake = λ q j w. ground (arith, v.awake q j);
}
Step-IsOwned {s} (begin_add t m o) v = record {
  idle = v.idle;
  holder = λ j q. cc;
  main_holds = λ q. refl;
  stopped = λ q. cc;
  awake = λ q j w. cc;
}
Step-IsOwned {s} (end_add t m _) v = record {
  idle = v.idle;
  holder = λ j q. cc;
  main_holds = λ q. cc;
  stopped = λ q. cc;
  awake = λ q j w. cc;
}
Step-IsOwned {s} (end_add_signal t i m _ w) v = record {
  idle = λ j h. ground (arith, v.idle j);
  holder = λ j q. cc;
  main_holds = λ q. cc;
  stopped = λ q. cc;
  awake = λ q j w. cc;
}
Step-IsOwned {s} (begin_destroy m o) v = record {
  idle = v.idle;
  holder = λ j q. cc;
  main_holds = λ q. refl;
  stopped = λ q. cc;
  awake = λ q j w. cc;
}
Step-IsOwned {s} (end_destroy m) v = record {
  idle = λ j h. broadcast-locking s.pc j (v.idle j h);
  holder = λ j q. cc;
  main_holds = λ q. cc;
  stopped = λ q. stop_pool-stop s.pool;
  awake = λ q j. broadcast-waiting s.pc j;
}

Reach-IsOwned : {q : List Task} {s : System} → Reach q s → IsOwned s
Reach-IsOwned start = record {
  idle = λ i h. refl;
  holder = λ i q. cc;
  main_holds = λ q. cc;
  stopped = λ q. cc;
  awake = λ q. cc;
}
Reach-IsOwned (later r st) = Step-IsOwned st (Reach-IsOwned r)

is_worker : (s : System) → IsOwned s → (i : ℕ) → s.pc i ≢ locking → i < threads
is_worker s v i n = elim (dec_lt i threads) [
  | yes h ↦ h
  | no h ↦ absurd (n (v.idle i (omega (arith, h))))
]

-- The step of worker `i` from `p` to `a`.
fewer :
    (s : System) (i : ℕ) (p a : Pc)
    → i < threads
    → s.pc i ≡ p
    → suc (weight a) ≡ weight p
    → suc (left threads (update s.pc i a)) ≡ left threads s.pc
fewer s i p a h e w =
    let at : weight (s.pc i) ≡ weight p = ap weight e in
    omega (arith, left-update threads i s.pc a h, at, w)

Step-left :
    {s t : System}
    → Step s t
    → IsOwned s
    → s.main ≡ joining
    → (t.main ≡ joining) × (suc (left threads t.pc) ≡ left threads s.pc)
Step-left {s} (lock i lt p o) v m = (m, fewer s i locking checking lt p refl)
Step-left {s} (wait i p z st) v m = let stop = v.stopped m in cc
Step-left {s} (wake i p) v m = (m, fewer s i waiting locking (is_worker s v i (λ q. cc)) p refl)
Step-left {s} (exit i p st) v m = (m, fewer s i checking exited (is_worker s v i (λ q. cc)) p refl)
Step-left {s} (take i p ne st) v m = let stop = v.stopped m in cc
Step-left {s} (finish i t p) v m =
    (m, fewer s i (running t) locking (is_worker s v i (λ q. cc)) p refl)
Step-left {s} (begin_add t n o) v m = cc
Step-left {s} (end_add t n _) v m = cc
Step-left {s} (end_add_signal t i n _ w) v m = cc
Step-left {s} (begin_destroy n o) v m = cc
Step-left {s} (end_destroy n) v m = cc

-- A worker that has not ended and does not wait can go on if the lock is free and the pool is stopped.
move :
    (s : System) (i : ℕ) (p : Pc)
    → s.pc i ≡ p
    → i < threads
    → s.owner ≡ nobody
    → s.pool.stop ≡ true
    → s.pc i ≢ waiting
    → p ≢ exited
    → (t : System) × Step s t
move s i locking e h o st w n = (_, lock i h e o)
move s i checking e h o st w n = (_, exit i e st)
move s i waiting e h o st w n = absurd (w e)
move s i (running t) e h o st w n = (_, finish i t e)
move s i exited e h o st w n = absurd (n refl)

-- All eight workers have ended.
abbrev pub AllExited : System → Type 0
AllExited s = (i : ℕ) → i < threads → s.pc i ≡ exited

go_on :
    (s : System) (o : Owner)
    → s.owner ≡ o
    → IsOwned s
    → s.main ≡ joining
    → ((t : System) × Step s t) ⊎ AllExited s
go_on s nobody e v m = elim (survey threads s.pc) [
  | inl all ↦ inr all
  | inr (i, h, ne) ↦ inl (move s i (s.pc i) refl h e (v.stopped m) (v.awake m i) ne)
]
go_on s main_thread e v m =
    let held = v.main_holds e in let free : inside s.main ≡ false = ap inside m in cc
go_on s (worker i) e v m = inl (_, exit i (v.holder i e) (v.stopped m))

-- The joins of `threadpool_destroy` return, if each task does, which is one step, with no worker left
-- in `pthread_cond_wait`: in every state that the threads can reach in which the main thread joins
-- them, none of them waits for a wake-up; each step, of whatever thread, leaves one step fewer of at
-- most 24, with the main thread still at its joins; and if no step is possible, all eight workers have
-- ended.
pub destroy_ends :
    {q : List Task} {s : System}
    → Reach q s
    → s.main ≡ joining
    → ((i : ℕ) → s.pc i ≢ waiting)
      × ((t : System)
          → Step s t
          → (t.main ≡ joining) × (suc (left threads t.pc) ≡ left threads s.pc))
      × (left threads s.pc ≤ 24)
      × (((t : System) × Step s t) ⊎ AllExited s)
destroy_ends {s = s} r m =
    let v : IsOwned s = Reach-IsOwned r in
    (v.awake m, λ t st. Step-left st v m, left-le threads s.pc, go_on s s.owner refl v m)
