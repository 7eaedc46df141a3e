-- ===== src/Poll/Sound.antt =====
-- What one client's data does to the poll server's table.
use lowlevel_academy.Prelude.{
  ℕ, ◌+◌, ◌≡◌, ◌≢◌, ◌<◌, refl, ap, ◌∙◌, List, [], ◌∷◌, Option, none, some, arith, length, get_elem?,
  drop,
}
use lowlevel_academy.Memory.{write_bytes, drop-write_bytes}
use lowlevel_academy.Cstring.Copy.{c_string-drop}
use lowlevel_academy.Server.{ClientState}
use lowlevel_academy.Server.Slots.Search.{IsFirst}
use lowlevel_academy.Server.Fsm.Total.{length-ended}
use lowlevel_academy.Server.Loop.Counting.{used, used-update_slot, slot_weight}
use lowlevel_academy.Server.Loop.Change.{
  IsTable, update-IsTable, same_fd-IsTable, others-Has, same_fd-Has, first-Taken,
}
use lowlevel_academy.Server.Loop.Table.{Has, AllEnded-get, IsFirst-Has}
use lowlevel_academy.Poll.{
  Loop, take_slot, place_client, accept_client, drop_slot, drop_client, put_text, printed, receive,
  serve_client, find_free_slot, find_slot_by_fd,
}
use lowlevel_academy.Poll.Search.{searches_lem}

-- A table in order, and `nfds` one more than the number of its slots in use.
pub record IsSound (l : Loop) : Type 0 where
  pub table : IsTable l.clients
  pub counted : l.nfds ≡ 1 + used l.clients

-- The slot of `d` was served, and nothing else is lost.
pub record Served (d : ℕ) (l l' : Loop) : Type 0 where
  pub sound : IsSound l'
  pub others : (x : ℕ) → x ≢ d → Has x l.clients → Has x l'.clients

abbrev pub Serves : ℕ → Loop → Option Loop → Type 0
Serves d l o = (l' : Loop) × (o ≡ some l') × Served d l l'

module _ (d r : ℕ) (c : ClientState) (l : Loop) (g : get_elem? l.clients r ≡ some c)
    (p : c.fd ≡ some d) (v : IsSound l) where
  drop_client-Serves : Serves d l (some (drop_client (some d) r l))
  unfolding drop_client drop_slot
  drop_client-Serves = (
    _,
    refl,
    record {
      sound = record {
        table = update-IsTable drop_slot l.clients r c g refl (λ x q. cc) v.table;
        counted =
            omega (arith, v.counted, used-update_slot l.clients r drop_slot c g, ap slot_weight p);
      };
      others = λ x n h. others-Has drop_slot l.clients r c g d x p n h;
    },
  )

  receive-Serves :
      (bytes : List ℕ)
      → length bytes < 4096
      → Serves d l (receive bytes r (get_elem? l.clients r) l)
  unfolding receive put_text printed
  receive-Serves bytes short =
      let old = AllEnded-get l.clients r c v.table.slots g in
      let size = length-ended c.buffer old in
      let tail : drop 4095 (write_bytes 0 bytes c.buffer) ≡ 0 ∷ [] =
        drop-write_bytes 0 4095 bytes c.buffer (omega arith) (omega arith) ∙ old in
      let (t, q) = c_string-drop 4095 (write_bytes 0 bytes c.buffer) [] tail in
      rw (g, q)
        (
          _,
          refl,
          record {
            sound = record {
              table = same_fd-IsTable (put_text bytes) l.clients r c g tail refl v.table;
              counted = omega (arith, v.counted, used-update_slot l.clients r (put_text bytes) c g);
            };
            others = λ x n h. same_fd-Has (put_text bytes) l.clients r c g x refl h;
          },
        )

  read-Serves :
      (bytes : List ℕ) → length bytes < 4096 → Serves d l (serve_client bytes (some d) (some r) l)
  unfolding serve_client
  read-Serves [] short = drop_client-Serves
  read-Serves (x ∷ bytes) short = receive-Serves (x ∷ bytes) short

-- The client of a descriptor that the table has is served, whatever it sent.
pub serve_client-Serves :
    (d : ℕ) (bytes : List ℕ) (l : Loop)
    → length bytes < 4096
    → Has d l.clients
    → IsSound l
    → Serves d l (serve_client bytes (some d) (find_slot_by_fd l.clients (some d)) l)
serve_client-Serves d bytes l short h v =
    let (r, c, p, g, q) =
      IsFirst-Has d l.clients (find_slot_by_fd l.clients (some d)) h
        (searches_lem l.clients (some d)).1 in
    rw p (read-Serves d r c l g q v bytes short)

-- A new client, of a descriptor that the table does not have, takes a slot or is turned away.
pub record Accepted (l l' : Loop) : Type 0 where
  pub sound : IsSound l'
  pub others : (x : ℕ) → Has x l.clients → Has x l'.clients

place_client-Accepted :
    (d : ℕ) (l : Loop) (o : Option ℕ)
    → ¬ Has d l.clients
    → IsSound l
    → IsFirst none 0 l.clients o
    → Accepted l (place_client d o l)
unfolding place_client take_slot
place_client-Accepted d l none n v f = record {
  sound = record { table = v.table; counted = v.counted };
  others = λ x h. h;
}
place_client-Accepted d l (some r) n v f =
    let t = first-Taken d (take_slot d) l.clients r (λ c. refl) (λ c. refl) n f v.table in
    let more = used-update_slot l.clients r (take_slot d) t.slot t.at_r in
    record {
      sound = record {
        table = t.table;
        counted = omega (arith, v.counted, more, ap slot_weight t.free);
      };
      others = t.others;
    }

pub accept_client-Accepted :
    (d : ℕ) (l : Loop) → ¬ Has d l.clients → IsSound l → Accepted l (accept_client d l)
unfolding accept_client
accept_client-Accepted d l n v =
    place_client-Accepted d l (find_free_slot l.clients) n v (searches_lem l.clients none).0
