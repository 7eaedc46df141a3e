-- ===== src/Select/Round/Watched.antt =====
-- Which descriptors a round looks at.
use lowlevel_academy.Prelude.{
  ℕ, ◌+◌, ◌≡◌, ◌<◌, ◌≤◌, ◌↔◌, ◌⊎◌, inl, inr, true, Bool, List, [], ◌∷◌, Option, none, some, arith,
  ltb, ◌&&◌, lt→ltb,
}
use lowlevel_academy.Select.{ClientState}
use lowlevel_academy.Select.Round.{add_fd, read_fds, raise_nfds, nfds_from, member, is_set}

-- A slot has the descriptor.
abbrev pub Used : ℕ → List ClientState → Type 0
Used d [] = ⊥
Used d (c ∷ cs) = (c.fd ≡ some d) ⊎ Used d cs

le-raise_nfds : (o : Option ℕ) (n : ℕ) → n ≤ raise_nfds o n
unfolding raise_nfds
le-raise_nfds none n = omega arith
le-raise_nfds (some d) n = ground arith

lt-raise_nfds : (d n : ℕ) → d < raise_nfds (some d) n
unfolding raise_nfds
lt-raise_nfds d n = ground arith

pub le-nfds_from : (n : ℕ) (cs : List ClientState) → n ≤ nfds_from n cs
unfolding nfds_from
le-nfds_from n [] = omega arith
le-nfds_from n (c ∷ cs) = omega (arith, le-raise_nfds c.fd n, le-nfds_from (raise_nfds c.fd n) cs)

Used-below : (d n : ℕ) (cs : List ClientState) → Used d cs → d < nfds_from n cs
unfolding nfds_from
Used-below d n [] u = absurd u
Used-below d n (c ∷ cs) (inl p) =
    rw p (omega (arith, lt-raise_nfds d n, le-nfds_from (raise_nfds (some d) n) cs))
Used-below d n (c ∷ cs) (inr u) = Used-below d (raise_nfds c.fd n) cs u

member-add_fd :
    (d : ℕ) (o : Option ℕ) (fds : List ℕ)
    → (member d (add_fd o fds) ≡ true) ↔ ((o ≡ some d) ⊎ (member d fds ≡ true))
unfolding member add_fd
member-add_fd d none fds = (λ h. inr h, λ h. ground arith)
member-add_fd d (some x) fds = (λ h. ground arith, λ h. ground arith)

member-read_fds :
    (d listen_fd : ℕ) (cs : List ClientState)
    → (member d (read_fds listen_fd cs) ≡ true) ↔ ((d ≡ listen_fd) ⊎ Used d cs)
unfolding read_fds member
member-read_fds d k [] = (λ h. ground arith, λ h. ground arith)
member-read_fds d k (c ∷ cs) =
    let a = member-add_fd d c.fd (read_fds k cs) in
    let r = member-read_fds d k cs in
    (
      λ h. elim (a.0 h) [
        | inl p ↦ inr (inl p)
        | inr m ↦ elim (r.0 m) [ inl q ↦ inl q | inr u ↦ inr (inr u) ]
      ],
      λ h. a.1 (elim h [
        | inl q ↦ inr (r.1 (inl q))
        | inr u ↦ elim u [ inl p ↦ inl p | inr v ↦ inr (r.1 (inr v)) ]
      ]),
    )

ltb-nfds_from :
    (d listen_fd : ℕ) (cs : List ClientState)
    → (d ≡ listen_fd) ⊎ Used d cs
    → ltb d (nfds_from (listen_fd + 1) cs) ≡ true
ltb-nfds_from d k cs (inl p) = lt→ltb d _ (omega (arith, p, le-nfds_from (k + 1) cs))
ltb-nfds_from d k cs (inr u) = lt→ltb d _ (Used-below d (k + 1) cs u)

and_iff : (a b c : Bool) → ((a && (b && c)) ≡ true) ↔ ((a ≡ true) × (b ≡ true) × (c ≡ true))
and_iff a b c = (λ h. ground arith, λ h. ground arith)

-- After `select`, FD_ISSET holds for just those descriptors that are ready and belong to the
-- listening socket or to a slot: the set has all of them, and `nfds` leaves none of them out.
pub is_set_iff :
    (ready : ℕ → Bool) (listen_fd : ℕ) (cs : List ClientState) (d : ℕ)
    → (is_set ready listen_fd cs d ≡ true) ↔ ((ready d ≡ true) × ((d ≡ listen_fd) ⊎ Used d cs))
unfolding is_set
is_set_iff ready k cs d =
    let m = member-read_fds d k cs in
    let a = and_iff (ready d) (member d (read_fds k cs)) (ltb d (nfds_from (k + 1) cs)) in
    (λ h. ((a.0 h).0, m.0 (a.0 h).1), λ h. a.1 (h.0, m.1 h.1, ltb-nfds_from d k cs h.1))
