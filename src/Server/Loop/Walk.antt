-- ===== src/Server/Loop/Walk.antt =====
-- The loop over the entries of `poll`, which src/server/main.c and poll_multiplexing.c both have: an
-- interface for what it calls, and that a round ends without a fault for all that keep its laws.
use lowlevel_academy.Prelude.{
  ℕ, zero, suc, ◌+◌, ◌-◌, ◌≡◌, ◌≢◌, refl, ap, sym, subst, ◌∙◌, inl, inr, true, false, ◌&&◌, ◌||◌,
  Bool, List, [], ◌∷◌, ◌++◌, Option, none, some, Bool-cases, arith, length, drop, ltb, leb,
}
use lowlevel_academy.Server.{ClientState}
use lowlevel_academy.Server.Loop.{Revents, PollFd, Events, list_fds, poll_fds}
use lowlevel_academy.Server.Loop.Counting.{used}
use lowlevel_academy.Server.Loop.Table.{Has, used-le}
use lowlevel_academy.Server.Loop.Change.{IsTable}
use lowlevel_academy.Server.Loop.Ready.{
  fds_of, entries, pollin_count, ready_count, bit, AllKnown, AllKnown-after, AllKnown-more,
  used-fds_of, poll_fds-list_fds, ready_count-entries, AllKnown-entries,
}

abbrev pub Others : (ℕ → Type 0) → List ClientState → List ClientState → Type 0
Others P cs cs' = (x : ℕ) → P x → Has x cs → Has x cs'

-- The table, the loop and its two operations, on states of one type. `Holds n s` is what holds of `s`
-- when up to `n` clients are to be served.
pub record Walk (S : Type 0) : Type 1 where
  pub clients : S → List ClientState
  pub nfds : S → ℕ
  pub serve : Option ℕ → S → Option S
  pub accept : ℕ → S → S
  pub walk : List PollFd → ℕ → ℕ → S → Option S
  pub round : List PollFd → ℕ → Option (Option ℕ) → S → Option S
  pub Holds : ℕ → S → Type 0
  pub tidy : (n : ℕ) (s : S) → Holds n s → IsTable (clients s)
  pub serves :
      (n d : ℕ) (s : S)
      → Holds (suc n) s
      → Has d (clients s)
      → (s' : S) × (serve (some d) s ≡ some s')
        × Holds n s'
        × Others (λ x. x ≢ d) (clients s) (clients s')
  pub accepts :
      (n d : ℕ) (s : S)
      → Holds n s
      → ¬ Has d (clients s)
      → Holds n (accept d s) × Others (λ x. Unit {0}) (clients s) (clients (accept d s))
  pub stops :
      (ps : List PollFd) (i n : ℕ) (s : S)
      → (leb i (nfds s) && ltb 0 n) ≡ false
      → walk ps i n s ≡ some s
  pub skips :
      (p : PollFd) (ps : List PollFd) (i n : ℕ) (s : S)
      → (leb i (nfds s) && ltb 0 n) ≡ true
      → p.revents.pollin ≡ false
      → walk (p ∷ ps) i n s ≡ walk ps (i + 1) n s
  pub reads :
      (p : PollFd) (ps : List PollFd) (i n : ℕ) (s s' : S)
      → (leb i (nfds s) && ltb 0 n) ≡ true
      → p.revents.pollin ≡ true
      → serve p.fd s ≡ some s'
      → walk (p ∷ ps) i n s ≡ walk ps (i + 1) (n - 1) s'
  pub without : (ps : List PollFd) (n : ℕ) (s : S) → round ps n none s ≡ walk ps 1 n s
  pub failing : (ps : List PollFd) (n : ℕ) (s : S) → round ps n (some none) s ≡ some s
  pub accepting :
      (ps : List PollFd) (n d : ℕ) (s : S)
      → round ps n (some (some d)) s ≡ walk ps 1 (n - 1) (accept d s)

abbrev pub accepted_count : Option (Option ℕ) → ℕ
accepted_count none = 0
accepted_count (some a) = 1

-- Whether `poll` counts the listening socket, and an entry: POLLIN or an error.
abbrev pub listener_count : Option (Option ℕ) → Bool → ℕ
listener_count (some a) error = 1
listener_count none error = bit error

abbrev pub revents_count : List Revents → ℕ
revents_count [] = 0
revents_count (r ∷ rs) = bit (r.pollin || r.error) + revents_count rs

-- What `poll` and `accept` promise: a report for each of the `nfds` entries, the number of those with
-- any event, and a descriptor that is not in use.

pub record IsReport (ev : Events) (cs : List ClientState) (nfds : ℕ) : Type 0 where
  pub reported : suc (length ev.revents) ≡ nfds
  pub numbered :
      ev.n_events ≡ listener_count ev.accepted ev.listener_error + revents_count ev.revents
  pub fresh : (d : ℕ) → ev.accepted ≡ some (some d) → ¬ Has d cs

-- No descriptor has an error without POLLIN. `poll` does not promise this.
abbrev pub AllReadable : List Revents → Type 0
AllReadable [] = Unit {0}
AllReadable (r ∷ rs) = (r.error ≡ true → r.pollin ≡ true) × AllReadable rs

pub record IsReadable (ev : Events) : Type 0 where
  pub listener : ev.accepted ≡ none → ev.listener_error ≡ false
  pub others : AllReadable ev.revents

readable-revents : (rs : List Revents) → AllReadable rs → revents_count rs ≡ pollin_count rs
readable-revents [] v = refl
readable-revents (r ∷ rs) v =
    let same : bit (r.pollin || r.error) ≡ bit r.pollin = ground (arith, v.0) in
    omega (arith, same, readable-revents rs v.1)

readable-listener :
    (a : Option (Option ℕ)) (error : Bool)
    → (a ≡ none → error ≡ false)
    → listener_count a error ≡ accepted_count a
readable-listener none error h = ap bit (h refl)
readable-listener (some a) error h = refl

pub readable-numbered :
    (ev : Events)
    → ev.n_events ≡ listener_count ev.accepted ev.listener_error + revents_count ev.revents
    → IsReadable ev
    → ev.n_events ≡ accepted_count ev.accepted + pollin_count ev.revents
readable-numbered ev h v = omega (
  arith,
  h,
  readable-listener ev.accepted ev.listener_error v.listener,
  readable-revents ev.revents v.others,
)

module _ {S : Type 0} (w : Walk S) where
  abbrev pub Ends : Option S → Type 0
  Ends o = (s' : S) × (o ≡ some s') × (m : ℕ) × w.Holds m s'

  -- The loop over the entries that `poll` looked at, with others behind them.
  walk-Ends :
      (ps rest : List PollFd) (i n : ℕ) (s : S)
      → n ≡ ready_count ps
      → AllKnown ps (w.clients s)
      → w.Holds n s
      → Ends (w.walk (ps ++ rest) i n s)
  walk-Ends [] rest i zero s h k v = (s, w.stops rest i 0 s (ground arith), 0, v)
  walk-Ends [] rest i (suc n) s h k v = absurd (omega arith)
  walk-Ends (p ∷ ps) rest i n s h (d, e, has, absent, known) v =
      elim (Bool-cases (leb i (w.nfds s) && ltb 0 n)) [
        | inl go ↦ elim (Bool-cases p.revents.pollin) [
          | inl ready ↦
              let one : bit p.revents.pollin ≡ 1 = ap bit ready in
              let (s', q, v', others) =
                w.serves (n - 1) d s (subst (λ m. w.Holds m s) (omega arith) v) has in
              let (t, r, m, u) =
                walk-Ends ps rest (i + 1) (n - 1) s' (omega arith)
                  (AllKnown-after d ps (w.clients s) (w.clients s') absent others known) v' in
              (t, w.reads p (ps ++ rest) i n s s' go ready (ap (λ z. w.serve z s) e ∙ q) ∙ r, m, u)
          | inr idle ↦
              let nothing : bit p.revents.pollin ≡ 0 = ap bit idle in
              let (t, r, m, u) = walk-Ends ps rest (i + 1) n s (omega arith) known v in
              (t, w.skips p (ps ++ rest) i n s go idle ∙ r, m, u)
        ]
        | inr end ↦ (s, w.stops (p ∷ ps ++ rest) i n s end, n, v)
      ]

  round-Ends :
      (ps rest : List PollFd) (s : S) (m : ℕ)
      → m ≡ ready_count ps
      → AllKnown ps (w.clients s)
      → w.Holds m s
      → (a : Option (Option ℕ)) (n : ℕ) → n ≡ accepted_count a + m
      → ((d : ℕ) → a ≡ some (some d) → ¬ Has d (w.clients s))
      → Ends (w.round (ps ++ rest) n a s)
  round-Ends ps rest s m same known v none n h fresh =
      let at_n : w.Holds n s = subst (λ k. w.Holds k s) (omega arith) v in
      let (t, r, k, u) = walk-Ends ps rest 1 n s (omega arith) known at_n in
      (t, w.without (ps ++ rest) n s ∙ r, k, u)
  round-Ends ps rest s m same known v (some none) n h fresh = (s, w.failing (ps ++ rest) n s, m, v)
  round-Ends ps rest s m same known v (some (some d)) n h fresh =
      let (v', others) = w.accepts m d s v (fresh d refl) in
      let at_n : w.Holds (n - 1) (w.accept d s) =
        subst (λ k. w.Holds k (w.accept d s)) (omega arith) v' in
      let (t, r, k, u) =
        walk-Ends ps rest 1 (n - 1) (w.accept d s) (omega arith)
          (AllKnown-more ps (w.clients s) (w.clients (w.accept d s)) (λ x. others x tt) known)
          at_n in
      (t, w.accepting (ps ++ rest) n d s ∙ r, k, u)

  -- A round, from the listing of the descriptors on.
  pub polled-Ends :
      (ev : Events) (fds : List PollFd) (s : S)
      → length fds ≡ 256
      → length ev.revents ≡ used (w.clients s)
      → IsReport ev (w.clients s) (w.nfds s)
      → IsReadable ev
      → w.Holds (pollin_count ev.revents) s
      → Ends (w.round (poll_fds ev.revents (list_fds (w.clients s) fds)) ev.n_events ev.accepted s)
  polled-Ends ev fds s size n polled readable v =
      let table = w.tidy (pollin_count ev.revents) s v in
      let split =
        poll_fds-list_fds (w.clients s) ev.revents fds n
          (omega (arith, used-le (w.clients s), table.size)) in
      let ready =
        ready_count-entries (fds_of (w.clients s)) ev.revents
          (n ∙ sym (used-fds_of (w.clients s))) in
      let (t, r, k, u) =
        round-Ends (entries (fds_of (w.clients s)) ev.revents) (drop (used (w.clients s)) fds) s
          (pollin_count ev.revents) (sym ready)
          (AllKnown-entries (w.clients s) ev.revents table.distinct) v ev.accepted ev.n_events
          (readable-numbered ev polled.numbered readable) polled.fresh in
      (t, ap (λ ps. w.round ps ev.n_events ev.accepted s) split ∙ r, k, u)
