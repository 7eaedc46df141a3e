-- ===== src/Server/Loop/Clients.antt =====
-- The table of clients is a bag of descriptors of bounded size.
use lowlevel_academy.Prelude.{
  tally, true, false, lt→ltb, ltb, if◌then◌else◌, ℕ, zero, suc, ◌+◌, ◌≡◌, ◌<◌, ◌==◌, Bool,
  if◌then◌else◌, refl, ap, List, [], ◌∷◌, Option, none, some, Option-cases, inl, inr, arith, length,
  get_elem?, ltb, lt→ltb,
}
use lowlevel_academy.Host.{Endian}
use lowlevel_academy.Server.{ClientState}
use lowlevel_academy.Server.Slots.{find_free_slot, find_slot_by_fd}
use lowlevel_academy.Server.Slots.Search.{
  IsFirst, NoneBelow, find_free_slot_lem, find_slot_by_fd_lem,
}
use lowlevel_academy.Server.Loop.{
  Loop, take_slot, update_slot, place_client, accept_client, drop_slot, drop_client, serve_client,
}
use lowlevel_academy.Server.Loop.Counting.{used, slot_at, slot_weight, used-update_slot}
use lowlevel_academy.Server.Loop.Table.{Has, IsFirst-Has, used-le, length-update_slot}
use lowlevel_academy.Server.Loop.Ready.{fds_of}
use lowlevel_academy.Server.Loop.Bag.{Bag, bag_of, same_bag, insert}

-- The descriptors of the slots in use.
abbrev pub clients_of : Loop → Bag
clients_of l = bag_of (fds_of l.clients)

abbrev hits : ℕ → Option ℕ → ℕ
hits d none = 0
hits d (some x) = if x == d then 1 else 0

tally-cons :
    (d : ℕ) (c : ClientState) (cs : List ClientState)
    → tally d (fds_of (c ∷ cs)) ≡ hits d c.fd + tally d (fds_of cs)
tally-cons d c cs = elim (Option-cases c.fd) [ inl p ↦ rw p (omega arith) | inr (x, p) ↦ rw p refl ]

tally-update_slot :
    (d : ℕ) (g : ClientState → ClientState) (cs : List ClientState) (i : ℕ) (c : ClientState)
    → get_elem? cs i ≡ some c
    → tally d (fds_of (update_slot i g cs)) + hits d c.fd ≡ tally d (fds_of cs) + hits d (g c).fd
unfolding update_slot
tally-update_slot d g [] i c h = ground arith
tally-update_slot d g (x ∷ cs) zero c h =
    let e : x ≡ c = ground arith in
    let old : hits d x.fd ≡ hits d c.fd = ap (λ z. hits d z.fd) e in
    let new : hits d (g x).fd ≡ hits d (g c).fd = ap (λ z. hits d (g z).fd) e in
    omega (arith, tally-cons d x cs, tally-cons d (g x) cs)
tally-update_slot d g (x ∷ cs) (suc i) c h =
    omega (
      arith,
      tally-cons d x cs,
      tally-cons d x (update_slot i g cs),
      tally-update_slot d g cs i c h,
    )

full : (cs : List ClientState) → NoneBelow none cs (length cs) → used cs ≡ length cs
full [] h = refl
full (c ∷ cs) h =
    let rest = full cs (λ j x lt g. h (suc j) x (omega arith) g) in
    elim (Option-cases c.fd) [
      | inl p ↦ absurd (h 0 c (omega arith) refl p)
      | inr (d, p) ↦ let one : slot_weight c.fd ≡ 1 = ap slot_weight p in omega arith
    ]

-- A free slot, with what it is to hold.
taken :
    (d : ℕ) (cs : List ClientState) (r : ℕ) (c : ClientState)
    → get_elem? cs r ≡ some c
    → c.fd ≡ none
    → used cs < length cs
unfolding take_slot
taken d cs r c h p =
    let free : slot_weight c.fd ≡ 0 = ap slot_weight p in
    omega (
      arith,
      used-update_slot cs r (take_slot d) c h,
      used-le (update_slot r (take_slot d) cs),
      length-update_slot (take_slot d) cs r,
    )

-- The bag of at most `n` descriptors, with one more if it has room.
abbrev pub bounded_insert : (size n d : ℕ) → Bag → Bag
bounded_insert size n d b = if ltb size n then insert d b else b

place_client-Bag :
    (d : ℕ) (o : Option ℕ) (l : Loop)
    → IsFirst none 0 l.clients o
    → clients_of (place_client d o l)
      ≡ bounded_insert (used l.clients) (length l.clients) d (clients_of l)
unfolding place_client take_slot insert
place_client-Bag d none l f =
    let no_room = full l.clients f in
    let closed : ltb (used l.clients) (length l.clients) ≡ false = ground arith in rw closed refl
place_client-Bag d (some r) l (i, e, lt, (c, g, p), below) =
    let at_r = slot_at l.clients r i c e g in
    let room : ltb (used l.clients) (length l.clients) ≡ true =
      lt→ltb (used l.clients) (length l.clients) (taken d l.clients r c at_r p) in
    rw room (
      same_bag (fds_of (update_slot r (take_slot d) l.clients)) (d ∷ fds_of l.clients) (λ x.
        let free : hits x c.fd ≡ 0 = ap (hits x) p in
        omega (arith, tally-update_slot x (take_slot d) l.clients r c at_r)))

drop_client-Bag :
    (d r : ℕ) (c : ClientState) (l : Loop)
    → get_elem? l.clients r ≡ some c
    → c.fd ≡ some d
    → insert d (clients_of (drop_client (some d) r l)) ≡ clients_of l
unfolding drop_client drop_slot insert
drop_client-Bag d r c l h p =
    same_bag (d ∷ fds_of (update_slot r drop_slot l.clients)) (fds_of l.clients) (λ x.
      let old : hits x c.fd ≡ hits x (some d) = ap (hits x) p in
      omega (arith, tally-update_slot x drop_slot l.clients r c h))

-- If the order of its slots is forgotten, the server's table of clients is a bag of descriptors of
-- bounded size: an accepted descriptor `d` is put into it if it has room, and the bag stays as it is
-- if not; and when a client of it, on descriptor `gone`, has closed its connection, serving it takes
-- `gone` out, once, and leaves the others.
pub clients_lem :
    (e : Endian) (b : Bool) (d gone : ℕ) (l : Loop)
    → Has gone l.clients
    → (clients_of (accept_client d l)
        ≡ bounded_insert (used l.clients) (length l.clients) d (clients_of l))
      × ((l' : Loop) × (serve_client e b [] (some gone) (find_slot_by_fd l.clients (some gone)) l
            ≡ some l')
          × (insert gone (clients_of l') ≡ clients_of l))
unfolding accept_client serve_client
clients_lem e b d gone l has =
    let (r, c, p, g, q) =
      IsFirst-Has gone l.clients (find_slot_by_fd l.clients (some gone)) has
        (find_slot_by_fd_lem l.clients (some gone)) in
    (
      place_client-Bag d (find_free_slot l.clients) l (find_free_slot_lem l.clients),
      (drop_client (some gone) r l, rw p refl, drop_client-Bag gone r c l g q),
    )
