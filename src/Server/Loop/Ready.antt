-- ===== src/Server/Loop/Ready.antt =====
-- The entries of `fds` that `poll` looks at.
use lowlevel_academy.Prelude.{
  ℕ, zero, suc, ◌+◌, ◌≡◌, ◌≢◌, ◌≤◌, refl, ap, ◌∙◌, Bool, true, false, List, [], ◌∷◌, ◌++◌, Option,
  none, some, Option-cases, inl, inr, arith, length, drop,
}
use lowlevel_academy.Server.{ClientState}
use lowlevel_academy.Server.Loop.{Revents, PollFd, list_fds, poll_fds}
use lowlevel_academy.Server.Loop.Counting.{used, slot_weight}
use lowlevel_academy.Server.Loop.Table.{Has, Distinct}

-- The descriptors of the slots in use, in order.
abbrev with_fd : Option ℕ → List ℕ → List ℕ
with_fd none ds = ds
with_fd (some d) ds = d ∷ ds

abbrev pub fds_of : List ClientState → List ℕ
fds_of [] = []
fds_of (c ∷ cs) = with_fd c.fd (fds_of cs)

-- An entry for each descriptor, with what `poll` reports of it.
abbrev pub entries : List ℕ → List Revents → List PollFd
entries [] bs = []
entries (d ∷ ds) [] = []
entries (d ∷ ds) (b ∷ bs) = record { fd = some d; revents = b } ∷ entries ds bs

-- The number of entries with POLLIN.
abbrev pub bit : Bool → ℕ
bit true = 1
bit false = 0

abbrev pub pollin_count : List Revents → ℕ
pollin_count [] = 0
pollin_count (b ∷ bs) = bit b.pollin + pollin_count bs

abbrev pub ready_count : List PollFd → ℕ
ready_count [] = 0
ready_count (p ∷ ps) = bit p.revents.pollin + ready_count ps

-- No entry has the descriptor.
abbrev pub Absent : ℕ → List PollFd → Type 0
Absent d [] = Unit {0}
Absent d (p ∷ ps) = (p.fd ≢ some d) × Absent d ps

-- Each entry has a descriptor of the table, and no two have the same.
abbrev pub AllKnown : List PollFd → List ClientState → Type 0
AllKnown [] cs = Unit {0}
AllKnown (p ∷ ps) cs = (d : ℕ) × (p.fd ≡ some d) × Has d cs × Absent d ps × AllKnown ps cs

-- A change of the table that loses no other descriptor.
pub AllKnown-after :
    (d : ℕ) (ps : List PollFd) (cs cs' : List ClientState)
    → Absent d ps
    → ((x : ℕ) → x ≢ d → Has x cs → Has x cs')
    → AllKnown ps cs
    → AllKnown ps cs'
AllKnown-after d [] cs cs' a m v = tt
AllKnown-after d (p ∷ ps) cs cs' a m (x, e, h, n, v) =
    (x, e, m x (λ q. a.0 (e ∙ ap some q)) h, n, AllKnown-after d ps cs cs' a.1 m v)

-- A change of the table that loses no descriptor.
pub AllKnown-more :
    (ps : List PollFd) (cs cs' : List ClientState)
    → ((x : ℕ) → Has x cs → Has x cs')
    → AllKnown ps cs
    → AllKnown ps cs'
AllKnown-more [] cs cs' m v = tt
AllKnown-more (p ∷ ps) cs cs' m (x, e, h, n, v) = (x, e, m x h, n, AllKnown-more ps cs cs' m v)

pub used-fds_of : (cs : List ClientState) → length (fds_of cs) ≡ used cs
used-fds_of [] = refl
used-fds_of (c ∷ cs) = elim (Option-cases c.fd) [
  | inl p ↦ rw p (omega (arith, used-fds_of cs))
  | inr (d, p) ↦ rw p (omega (arith, used-fds_of cs))
]

entries-nil : (ds : List ℕ) → entries ds [] ≡ []
entries-nil [] = refl
entries-nil (d ∷ ds) = refl

drop-nil : (n : ℕ) → drop {A = PollFd} n [] ≡ []
drop-nil zero = refl
drop-nil (suc n) = refl

-- The entry of a slot in use is the next one.
abbrev Polled : List ClientState → Type 0
Polled cs =
    (bs : List Revents) (fds : List PollFd)
    → length bs ≡ used cs
    → used cs ≤ length fds
    → poll_fds bs (list_fds cs fds) ≡ entries (fds_of cs) bs ++ drop (used cs) fds

poll_fds-used :
    (c : ClientState) (cs : List ClientState) (bs : List Revents) (q : PollFd) (fds : List PollFd)
    (d : ℕ)
    → c.fd ≡ some d
    → length bs ≡ used (c ∷ cs)
    → used (c ∷ cs) ≤ suc (length fds)
    → Polled cs
    → poll_fds bs (list_fds (c ∷ cs) (q ∷ fds))
      ≡ entries (fds_of (c ∷ cs)) bs ++ drop (used (c ∷ cs)) (q ∷ fds)
unfolding poll_fds list_fds
poll_fds-used c cs [] q fds d p h k ih =
    let w : slot_weight c.fd ≡ 1 = ap slot_weight p in absurd (omega arith)
poll_fds-used c cs (b ∷ bs) q fds d p h k ih =
    let w : slot_weight c.fd ≡ 1 = ap slot_weight p in
    let z : slot_weight c.fd + used cs ≡ suc (used cs) = omega arith in
    rw (z, p)
      (ap (λ o. record { fd = o; revents = b } ∷ poll_fds bs (list_fds cs fds)) p
        ∙ ap (λ t. record { fd = some d; revents = b } ∷ t) (ih bs fds (omega arith) (omega arith)))

-- After `poll`: the entries of the slots in use, and behind them what stood there before.
pub poll_fds-list_fds :
    (cs : List ClientState) (bs : List Revents) (fds : List PollFd)
    → length bs ≡ used cs
    → used cs ≤ length fds
    → poll_fds bs (list_fds cs fds) ≡ entries (fds_of cs) bs ++ drop (used cs) fds
unfolding poll_fds list_fds
poll_fds-list_fds [] [] fds h k = refl
poll_fds-list_fds [] (b ∷ bs) fds h k = absurd (omega arith)
poll_fds-list_fds (c ∷ cs) [] [] h k =
    rw (entries-nil (fds_of (c ∷ cs)), drop-nil (used (c ∷ cs))) refl
poll_fds-list_fds (c ∷ cs) (b ∷ bs) [] h k = absurd (omega arith)
poll_fds-list_fds (c ∷ cs) bs (q ∷ fds) h k = elim (Option-cases c.fd) [
  | inl p ↦
      let w : slot_weight c.fd ≡ 0 = ap slot_weight p in
      let z : slot_weight c.fd + used cs ≡ used cs = omega arith in
      rw (z, p) (poll_fds-list_fds cs bs (q ∷ fds) (omega arith) (omega arith))
  | inr (d, p) ↦ poll_fds-used c cs bs q fds d p h k (poll_fds-list_fds cs)
]

pub ready_count-entries :
    (ds : List ℕ) (bs : List Revents)
    → length bs ≡ length ds
    → ready_count (entries ds bs) ≡ pollin_count bs
ready_count-entries [] [] h = refl
ready_count-entries [] (b ∷ bs) h = absurd (omega arith)
ready_count-entries (d ∷ ds) [] h = absurd (omega arith)
ready_count-entries (d ∷ ds) (b ∷ bs) h = omega (arith, ready_count-entries ds bs (omega arith))

AllKnown-cons :
    (ps : List PollFd) (c : ClientState) (cs : List ClientState)
    → AllKnown ps cs
    → AllKnown ps (c ∷ cs)
AllKnown-cons [] c cs v = tt
AllKnown-cons (p ∷ ps) c cs (d, e, h, n, v) = (d, e, inr h, n, AllKnown-cons ps c cs v)

Absent-with_fd :
    (d : ℕ) (o : Option ℕ) (ds : List ℕ) (bs : List Revents)
    → o ≢ some d
    → ((cut : List Revents) → Absent d (entries ds cut))
    → Absent d (entries (with_fd o ds) bs)
Absent-with_fd d none ds bs n a = a bs
Absent-with_fd d (some x) ds [] n a = tt
Absent-with_fd d (some x) ds (b ∷ bs) n a = (n, a bs)

Absent-entries :
    (d : ℕ) (cs : List ClientState) (bs : List Revents)
    → ¬ Has d cs
    → Absent d (entries (fds_of cs) bs)
Absent-entries d [] bs n = tt
Absent-entries d (c ∷ cs) bs n =
    Absent-with_fd d c.fd (fds_of cs) bs (λ p. n (inl p))
      (λ cut. Absent-entries d cs cut (λ u. n (inr u)))

AllKnown-with_fd :
    (o : Option ℕ) (ds : List ℕ) (bs : List Revents) (cs : List ClientState)
    → ((d : ℕ) → o ≡ some d → Has d cs)
    → ((d : ℕ) → o ≡ some d → (cut : List Revents) → Absent d (entries ds cut))
    → ((cut : List Revents) → AllKnown (entries ds cut) cs)
    → AllKnown (entries (with_fd o ds) bs) cs
AllKnown-with_fd none ds bs cs h a k = k bs
AllKnown-with_fd (some d) ds [] cs h a k = tt
AllKnown-with_fd (some d) ds (b ∷ bs) cs h a k = (d, refl, h d refl, a d refl bs, k bs)

pub AllKnown-entries :
    (cs : List ClientState) (bs : List Revents) → Distinct cs → AllKnown (entries (fds_of cs) bs) cs
AllKnown-entries [] bs v = tt
AllKnown-entries (c ∷ cs) bs v =
    AllKnown-with_fd c.fd (fds_of cs) bs (c ∷ cs) (λ d p. inl p)
      (λ d p cut. Absent-entries d cs cut (v.0 d p))
      (λ cut. AllKnown-cons (entries (fds_of cs) cut) c cs (AllKnown-entries cs cut v.1))

-- A round keeps the number of entries.
pub length-list_fds :
    (cs : List ClientState) (fds : List PollFd) → length (list_fds cs fds) ≡ length fds
unfolding list_fds
length-list_fds [] fds = refl
length-list_fds (c ∷ cs) [] = refl
length-list_fds (c ∷ cs) (p ∷ fds) = elim (Option-cases c.fd) [
  | inl q ↦ rw q (length-list_fds cs (p ∷ fds))
  | inr (d, q) ↦ rw q (ap suc (length-list_fds cs fds))
]

pub length-poll_fds :
    (bs : List Revents) (fds : List PollFd) → length (poll_fds bs fds) ≡ length fds
unfolding poll_fds
length-poll_fds [] fds = refl
length-poll_fds (b ∷ bs) [] = refl
length-poll_fds (b ∷ bs) (p ∷ fds) = ap suc (length-poll_fds bs fds)
