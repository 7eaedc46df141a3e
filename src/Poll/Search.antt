-- ===== src/Poll/Search.antt =====
-- The searches of the poll server's table are those of the database server's.
use lowlevel_academy.Prelude.{
  ℕ, ◌+◌, ◌≡◌, refl, subst, List, [], ◌∷◌, Option, none, Option-cases, inl, inr,
}
use lowlevel_academy.Server.{ClientState}
use lowlevel_academy.Server.Slots.{same_fd, find_from}
use lowlevel_academy.Server.Slots as Server
use lowlevel_academy.Server.Slots.Search.{IsFirst, find_free_slot_lem, find_slot_by_fd_lem}
use lowlevel_academy.Poll.{free_from, find_free_slot, slot_from, find_slot_by_fd}

free_from-find_from : (i : ℕ) (cs : List ClientState) → find_from none i cs ≡ free_from i cs
unfolding free_from find_from same_fd
free_from-find_from i [] = refl
free_from-find_from i (c ∷ cs) = elim (Option-cases c.fd) [
  | inl p ↦ rw p refl
  | inr (d, p) ↦ rw p (free_from-find_from (i + 1) cs)
]

slot_from-find_from :
    (fd : Option ℕ) (i : ℕ) (cs : List ClientState) → find_from fd i cs ≡ slot_from fd i cs
unfolding slot_from find_from
slot_from-find_from fd i [] = refl
slot_from-find_from fd i (c ∷ cs) = rw (slot_from-find_from fd (i + 1) cs) refl

find_free_slot-Server : (cs : List ClientState) → Server.find_free_slot cs ≡ find_free_slot cs
unfolding find_free_slot Server.find_free_slot
find_free_slot-Server cs = free_from-find_from 0 cs

find_slot_by_fd-Server :
    (cs : List ClientState) (fd : Option ℕ) → Server.find_slot_by_fd cs fd ≡ find_slot_by_fd cs fd
unfolding find_slot_by_fd Server.find_slot_by_fd
find_slot_by_fd-Server cs fd = slot_from-find_from fd 0 cs

-- Each search of the two servers finds the first slot that fits, and -1 only when there is none:
-- `find_free_slot` a slot of descriptor -1, `find_slot_by_fd` one of the descriptor `fd`. The two
-- servers agree on both.
pub searches_lem :
    (cs : List ClientState) (fd : Option ℕ)
    → IsFirst none 0 cs (find_free_slot cs)
      × IsFirst fd 0 cs (find_slot_by_fd cs fd)
      × (Server.find_free_slot cs ≡ find_free_slot cs)
      × (Server.find_slot_by_fd cs fd ≡ find_slot_by_fd cs fd)
searches_lem cs fd = (
  subst (IsFirst none 0 cs) (find_free_slot-Server cs) (find_free_slot_lem cs),
  subst (IsFirst fd 0 cs) (find_slot_by_fd-Server cs fd) (find_slot_by_fd_lem cs fd),
  find_free_slot-Server cs,
  find_slot_by_fd-Server cs fd,
)
