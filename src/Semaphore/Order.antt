-- ===== src/Semaphore/Order.antt =====
-- The waiter goes on after the signal, and every run comes to its end.
use lowlevel_academy.Prelude.{refl, inl, inr, ◌⊎◌, ℕ, suc, ◌+◌, ◌≡◌, ◌≢◌, ◌≤◌, arith}
use lowlevel_academy.Semaphore.{
  start, later, Reach, initial, Waiter, not_created, entering, at_wait, passed, returned, Signaller,
  not_started, starting, working, at_post, posted, Main, create_waiter, create_signaller,
  join_waiter, join_signaller, destroy, done, System, Step, creates_waiter, creates_signaller,
  joins_waiter, joins_signaller, destroys, enters, waits, returns, starts, wakes, posts,
}

-- The steps that each thread has before it.
abbrev main_left : Main → ℕ
main_left create_waiter = 5
main_left create_signaller = 4
main_left join_waiter = 3
main_left join_signaller = 2
main_left destroy = 1
main_left done = 0

abbrev pub waiter_left : Waiter → ℕ
waiter_left not_created = 3
waiter_left entering = 3
waiter_left at_wait = 2
waiter_left passed = 1
waiter_left returned = 0

abbrev signaller_left : Signaller → ℕ
signaller_left not_started = 3
signaller_left starting = 3
signaller_left working = 2
signaller_left at_post = 1
signaller_left posted = 0

abbrev left : System → ℕ
left s = main_left s.main + waiter_left s.waiter + signaller_left s.signaller

-- What the semaphore was raised and lowered by.
abbrev raised : Signaller → ℕ
raised posted = 1
raised _ = 0

abbrev lowered : Waiter → ℕ
lowered passed = 1
lowered returned = 1
lowered _ = 0

-- Where the threads stand while `main` stands at one place.
abbrev Fits : Main → Waiter → Signaller → Type 0
Fits create_waiter w g = (w ≡ not_created) × (g ≡ not_started)
Fits create_signaller w g = (1 ≤ waiter_left w) × (w ≢ not_created) × (g ≡ not_started)
Fits join_waiter w g = (w ≢ not_created) × (g ≢ not_started)
Fits join_signaller w g = (w ≡ returned) × (g ≢ not_started)
Fits _ w g = (w ≡ returned) × (g ≡ posted)

pub record IsSound (s : System) : Type 0 where
  pub counted : s.sem + lowered s.waiter ≡ raised s.signaller
  pub fits : Fits s.main s.waiter s.signaller

step-left : (r s : System) → IsSound r → Step r s → suc (left s) ≡ left r
step-left r s v (creates_waiter h) = ground arith
step-left r s v (creates_signaller h) = ground arith
step-left r s v (joins_waiter h k) = ground arith
step-left r s v (joins_signaller h k) = ground arith
step-left r s v (destroys h) = ground arith
step-left r s v (enters h) = ground arith
step-left r s v (waits x h k) = ground arith
step-left r s v (returns h) = ground arith
step-left r s v (starts h) = ground arith
step-left r s v (wakes h) = ground arith
step-left r s v (posts h) = ground arith

step-IsSound : (r s : System) → IsSound r → Step r s → IsSound s
step-IsSound r s v (creates_waiter h) = ground arith
step-IsSound r s v (creates_signaller h) = ground arith
step-IsSound r s v (joins_waiter h k) = ground arith
step-IsSound r s v (joins_signaller h k) = ground arith
step-IsSound r s v (destroys h) = ground arith
step-IsSound r s v (enters h) = ground arith
step-IsSound r s v (waits x h k) = ground arith
step-IsSound r s v (returns h) = ground arith
step-IsSound r s v (starts h) = ground arith
step-IsSound r s v (wakes h) = ground arith
step-IsSound r s v (posts h) = ground arith

initial-IsSound : IsSound initial
initial-IsSound = record { counted = refl; fits = (refl, refl) }

pub reach-IsSound : (s : System) → Reach s → IsSound s
reach-IsSound s start = initial-IsSound
reach-IsSound s (later {r = r} q p) = step-IsSound r s (reach-IsSound r q) p

abbrev pub steps : {s : System} → Reach s → ℕ
steps start = 0
steps (later q p) = suc (steps q)

steps_lem : (s : System) (q : Reach s) → steps q + left s ≡ 11
steps_lem s start = refl
steps_lem s (later {r = r} q p) = omega (arith, steps_lem r q, step-left r s (reach-IsSound r q) p)

abbrev pub IsOver : System → Type 0
IsOver s = (s.main ≡ done) × (s.waiter ≡ returned) × (s.signaller ≡ posted) × (s.sem ≡ 0)

-- All is over, or a thread can go on.
abbrev GoesOn : System → Type 0
GoesOn s = IsOver s ⊎ ((s' : System) × Step s s')

module _ (s : System) (v : IsSound s) where
  wait-GoesOn :
      (g : Signaller) → s.main ≡ join_waiter → s.waiter ≡ at_wait → s.signaller ≡ g → GoesOn s
  wait-GoesOn not_started m w g = absurd (ground arith)
  wait-GoesOn starting m w g = inr (_, starts g)
  wait-GoesOn working m w g = inr (_, wakes g)
  wait-GoesOn at_post m w g = inr (_, posts g)
  wait-GoesOn posted m w g = inr (_, waits 0 w (ground arith))

  join_waiter-GoesOn : (w : Waiter) → s.main ≡ join_waiter → s.waiter ≡ w → GoesOn s
  join_waiter-GoesOn not_created m w = absurd (ground arith)
  join_waiter-GoesOn entering m w = inr (_, enters w)
  join_waiter-GoesOn at_wait m w = wait-GoesOn s.signaller m w refl
  join_waiter-GoesOn passed m w = inr (_, returns w)
  join_waiter-GoesOn returned m w = inr (_, joins_waiter m w)

  join_signaller-GoesOn : (g : Signaller) → s.main ≡ join_signaller → s.signaller ≡ g → GoesOn s
  join_signaller-GoesOn not_started m g = absurd (ground arith)
  join_signaller-GoesOn starting m g = inr (_, starts g)
  join_signaller-GoesOn working m g = inr (_, wakes g)
  join_signaller-GoesOn at_post m g = inr (_, posts g)
  join_signaller-GoesOn posted m g = inr (_, joins_signaller m g)

  main-GoesOn : (m : Main) → s.main ≡ m → GoesOn s
  main-GoesOn create_waiter m = inr (_, creates_waiter m)
  main-GoesOn create_signaller m = inr (_, creates_signaller m)
  main-GoesOn join_waiter m = join_waiter-GoesOn s.waiter m refl
  main-GoesOn join_signaller m = join_signaller-GoesOn s.signaller m refl
  main-GoesOn destroy m = inr (_, destroys m)
  main-GoesOn done m = inl (ground arith)

behind-posted :
    (n : ℕ) (w : Waiter) (g : Signaller)
    → n + lowered w ≡ raised g
    → (2 ≤ waiter_left w) ⊎ (g ≡ posted)
behind-posted n w posted h = inr refl
behind-posted n passed g h = absurd (ground arith)
behind-posted n returned g h = absurd (ground arith)
behind-posted n w g h = inl (ground arith)

-- However the threads are interleaved: the waiter is not behind `sem_wait` before the signaller has
-- posted; a run has at most eleven steps; and as long as `main` has not ended, with both threads at
-- their end and the semaphore at 0, some thread can take a step.
pub semaphore_lem :
    (s : System) (q : Reach s)
    → ((2 ≤ waiter_left s.waiter) ⊎ (s.signaller ≡ posted))
      × (steps q ≤ 11)
      × (IsOver s ⊎ ((s' : System) × Step s s'))
semaphore_lem s q =
    let v = reach-IsSound s q in
    (
      behind-posted s.sem s.waiter s.signaller v.counted,
      omega (arith, steps_lem s q),
      main-GoesOn s v s.main refl,
    )
