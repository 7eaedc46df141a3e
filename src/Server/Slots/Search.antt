-- ===== src/Server/Slots/Search.antt =====
-- The searches of the client table find the first slot that fits, and only then.
use lowlevel_academy.Prelude.{
  ℕ, zero, suc, ◌+◌, ◌≡◌, ◌≢◌, ◌<◌, refl, ap, true, false, List, [], ◌∷◌, Option, none, some,
  replicate, length, get_elem?, arith, Bool-cases, inl, inr,
}
use lowlevel_academy.Server.{max_clients, ClientState}
use lowlevel_academy.Server.Slots.{
  same_fd, find_from, find_free_slot, find_slot_by_fd, fresh_client, init_from, init_clients,
}

pub same_fd-eq : (a b : Option ℕ) → same_fd a b ≡ true → a ≡ b
unfolding same_fd
same_fd-eq none none h = refl
same_fd-eq none (some b) h = cc
same_fd-eq (some a) none h = cc
same_fd-eq (some a) (some b) h = ground arith

pub same_fd-ne : (a b : Option ℕ) → same_fd a b ≡ false → a ≢ b
unfolding same_fd
same_fd-ne none none h = cc
same_fd-ne none (some b) h = ground arith
same_fd-ne (some a) none h = ground arith
same_fd-ne (some a) (some b) h = ground arith

-- No slot below `n` has the descriptor.
abbrev pub NoneBelow : Option ℕ → List ClientState → ℕ → Type 0
NoneBelow fd cs n = (j : ℕ) (c : ClientState) → j < n → get_elem? cs j ≡ some c → c.fd ≢ fd

abbrev pub SlotHas : Option ℕ → List ClientState → ℕ → Type 0
SlotHas fd cs i = (c : ClientState) × (get_elem? cs i ≡ some c) × (c.fd ≡ fd)

-- The first slot that has the descriptor, or that there is none; the loop starts counting at `k`.
abbrev pub IsFirst : Option ℕ → ℕ → List ClientState → Option ℕ → Type 0
IsFirst fd k cs none = NoneBelow fd cs (length cs)
IsFirst fd k cs (some r) =
    (i : ℕ) × (r ≡ k + i) × (i < length cs) × SlotHas fd cs i × NoneBelow fd cs i

NoneBelow-cons :
    (fd : Option ℕ) (c : ClientState) (cs : List ClientState) (n : ℕ)
    → c.fd ≢ fd
    → NoneBelow fd cs n
    → NoneBelow fd (c ∷ cs) (suc n)
NoneBelow-cons fd c cs n ne h zero d lt e = λ q. ne (ground arith)
NoneBelow-cons fd c cs n ne h (suc j) d lt e = h j d (omega arith) e

IsFirst-cons :
    (fd : Option ℕ) (k : ℕ) (c : ClientState) (cs : List ClientState) (o : Option ℕ)
    → c.fd ≢ fd
    → IsFirst fd (k + 1) cs o
    → IsFirst fd k (c ∷ cs) o
IsFirst-cons fd k c cs none ne h = NoneBelow-cons fd c cs (length cs) ne h
IsFirst-cons fd k c cs (some r) ne h =
    (suc h.0, omega (arith, h.1), omega (arith, h.2), h.3, NoneBelow-cons fd c cs h.0 ne h.4)

find_from-IsFirst :
    (fd : Option ℕ) (k : ℕ) (cs : List ClientState) → IsFirst fd k cs (find_from fd k cs)
unfolding find_from
find_from-IsFirst fd k [] = λ j c lt e. absurd (omega arith)
find_from-IsFirst fd k (c ∷ cs) = elim (Bool-cases (same_fd c.fd fd)) [
  | inl p ↦ rw p (
    0,
    omega arith,
    omega arith,
    (c, refl, same_fd-eq c.fd fd p),
    λ j d lt e. absurd (omega arith),
  )
  | inr p ↦ rw p (IsFirst-cons fd k c cs _ (same_fd-ne c.fd fd p) (find_from-IsFirst fd (k + 1) cs))
]

-- `find_free_slot` returns the first slot whose descriptor is -1, and -1 only when every slot is in
-- use.
pub find_free_slot_lem : (cs : List ClientState) → IsFirst none 0 cs (find_free_slot cs)
unfolding find_free_slot
find_free_slot_lem cs = find_from-IsFirst none 0 cs

-- `find_slot_by_fd` returns the first slot with the descriptor, and -1 only when no slot has it.
pub find_slot_by_fd_lem :
    (cs : List ClientState) (fd : Option ℕ) → IsFirst fd 0 cs (find_slot_by_fd cs fd)
unfolding find_slot_by_fd
find_slot_by_fd_lem cs fd = find_from-IsFirst fd 0 cs

init_from_lem :
    (n : ℕ) (cs : List ClientState) → length cs ≡ n → init_from n cs ≡ replicate n fresh_client
unfolding init_from
init_from_lem zero [] h = refl
init_from_lem zero (c ∷ cs) h = absurd (omega arith)
init_from_lem (suc n) [] h = absurd (omega arith)
init_from_lem (suc n) (c ∷ cs) h = ap (λ t. fresh_client ∷ t) (init_from_lem n cs (omega arith))

-- `init_clients` makes every slot of the table free, new and zeroed, whatever was there.
pub init_clients_lem :
    (cs : List ClientState)
    → length cs ≡ max_clients
    → init_clients cs ≡ replicate max_clients fresh_client
unfolding init_clients
init_clients_lem cs h = init_from_lem max_clients cs h
