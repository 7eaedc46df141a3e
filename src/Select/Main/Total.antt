-- ===== src/Select/Main/Total.antt =====
-- The select server never faults.
use lowlevel_academy.Prelude.{
  ℕ, ◌≡◌, ◌<◌, ◌∙◌, ◌&&◌, refl, inl, inr, Bool, Bool-cases, List, [], ◌∷◌, Option, none, some,
  length, length-replicate,
}
use lowlevel_academy.Select.{init_clients, fresh_client}
use lowlevel_academy.Select.Round.{Loop, Events}
use lowlevel_academy.Select.Round.Invariant.{AllSlots, init_clients-AllSlots, round-AllSlots}
use lowlevel_academy.Select.Main.{Standing, exit_failure, selecting, next_round, rounds, main}

-- No read of any round returns all of the 4096 bytes of a buffer, and what `accept` returns is below
-- FD_SETSIZE.
abbrev pub AllShort : List (Option Events) → Type 0
AllShort [] = Unit {0}
AllShort (none ∷ evs) = AllShort evs
AllShort (some ev ∷ evs) =
    ((d : ℕ) → length (ev.reads d) < 4096)
    × ((d : ℕ) → ev.accepted ≡ some (some d) → d < 1024)
    × AllShort evs

abbrev pub InOrder : Standing → Type 0
InOrder exit_failure = Unit {0}
InOrder (selecting l) = AllSlots l.clients × (length l.clients ≡ 256)

rounds-InOrder :
    (listen_fd : ℕ) (evs : List (Option Events)) (l : Loop)
    → listen_fd < 1024
    → AllShort evs
    → AllSlots l.clients
    → length l.clients ≡ 256
    → (s : Standing) × (rounds listen_fd evs l ≡ some s) × InOrder s
unfolding rounds next_round
rounds-InOrder listen_fd [] l low h v n = (selecting l, refl, (v, n))
rounds-InOrder listen_fd (none ∷ evs) l low h v n = (exit_failure, refl, tt)
rounds-InOrder listen_fd (some ev ∷ evs) l low h v n =
    let (l', p, w, m) = round-AllSlots listen_fd ev l low h.1 v h.0 in
    rw p (rounds-InOrder listen_fd evs l' low h.2 w (m ∙ n))

length-init_clients : length init_clients ≡ 256
unfolding init_clients
length-init_clients = length-replicate 256 fresh_client

-- The select server never faults, for any number of rounds, if no read returns all of the 4096 bytes
-- of a buffer, and each descriptor that `socket` and `accept` return is below FD_SETSIZE, 1024. While
-- it runs its table has 256 slots, and these rules hold for each: it is connected, on a descriptor
-- below FD_SETSIZE, if it has one; otherwise it is not, and its buffer is
-- zeroed; and the last byte of its buffer is a NUL.
pub select_main_total :
    (fd : Option ℕ) (bound listening : Bool) (evs : List (Option Events))
    → ((d : ℕ) → fd ≡ some d → d < 1024)
    → AllShort evs
    → (s : Standing) × (main fd bound listening evs ≡ some s) × InOrder s
unfolding main
select_main_total none bound listening evs low h = (exit_failure, refl, tt)
select_main_total (some fd) bound listening evs low h = elim (Bool-cases (bound && listening)) [
  | inl p ↦ rw p (rounds-InOrder fd evs _ (low fd refl) h init_clients-AllSlots length-init_clients)
  | inr p ↦ rw p (exit_failure, refl, tt)
]
