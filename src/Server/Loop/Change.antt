-- ===== src/Server/Loop/Change.antt =====
-- A table in order, and what a change of one of its slots does to it: shared by the two servers that
-- poll.
use lowlevel_academy.Prelude.{
  ℕ, ◌≡◌, ◌≢◌, ◌⊎◌, inl, inr, subst, ◌∙◌, sym, List, [], ◌∷◌, none, some, arith, length,
  length-replicate, get_elem?, drop, replicate, ap,
}
use lowlevel_academy.Server.{ClientState}
use lowlevel_academy.Server.Slots.{fresh_client}
use lowlevel_academy.Server.Slots.Search.{IsFirst}
use lowlevel_academy.Server.Loop.{update_slot}
use lowlevel_academy.Server.Loop.Counting.{slot_at}
use lowlevel_academy.Server.Loop.Table.{
  Has, Distinct, AllEnded, AllEnded-get, length-update_slot, AllEnded-update_slot, Has-after,
  Distinct-update_slot, all_fresh,
}

-- 256 slots, no two with one descriptor and each with a NUL in the last byte of its buffer.
pub record IsTable (cs : List ClientState) : Type 0 where
  pub slots : AllEnded cs
  pub distinct : Distinct cs
  pub size : length cs ≡ 256

pub fresh-IsTable : IsTable (replicate 256 fresh_client)
fresh-IsTable = record {
  slots = (all_fresh 256).0;
  distinct = (all_fresh 256).1;
  size = length-replicate 256 fresh_client;
}

module _ (g : ClientState → ClientState) (cs : List ClientState) (r : ℕ) (c : ClientState)
    (at_r : get_elem? cs r ≡ some c) where
  pub update-IsTable :
      drop 4095 (g c).buffer ≡ 0 ∷ []
      → ((d : ℕ) → (g c).fd ≡ some d → (c.fd ≡ some d) ⊎ (¬ Has d cs))
      → IsTable cs
      → IsTable (update_slot r g cs)
  update-IsTable ended new v = record {
    slots = AllEnded-update_slot g cs r c at_r ended v.slots;
    distinct = Distinct-update_slot g cs r c at_r new v.distinct;
    size = length-update_slot g cs r ∙ v.size;
  }

  -- A slot that keeps its descriptor.
  pub same_fd-IsTable :
      drop 4095 (g c).buffer ≡ 0 ∷ [] → (g c).fd ≡ c.fd → IsTable cs → IsTable (update_slot r g cs)
  same_fd-IsTable ended same v = update-IsTable ended (λ d q. inl (sym same ∙ q)) v

  -- A slot that is given up loses its own descriptor only.
  pub others-Has : (d x : ℕ) → c.fd ≡ some d → x ≢ d → Has x cs → Has x (update_slot r g cs)
  others-Has d x p n h = Has-after g cs r x c at_r (λ q. absurd (n (ground (arith, p, q)))) h

  pub same_fd-Has : (x : ℕ) → (g c).fd ≡ c.fd → Has x cs → Has x (update_slot r g cs)
  same_fd-Has x same h = Has-after g cs r x c at_r (λ q. same ∙ q) h

-- The first free slot is given to a descriptor that the table does not have.
pub record Taken (g : ClientState → ClientState) (cs : List ClientState) (r : ℕ) : Type 0 where
  pub slot : ClientState
  pub at_r : get_elem? cs r ≡ some slot
  pub free : slot.fd ≡ none
  pub table : IsTable (update_slot r g cs)
  pub others : (x : ℕ) → Has x cs → Has x (update_slot r g cs)

pub first-Taken :
    (d : ℕ) (g : ClientState → ClientState) (cs : List ClientState) (r : ℕ)
    → ((c : ClientState) → (g c).fd ≡ some d)
    → ((c : ClientState) → (g c).buffer ≡ c.buffer)
    → ¬ Has d cs
    → IsFirst none 0 cs (some r)
    → IsTable cs
    → Taken g cs r
first-Taken d g cs r fd buffer n (i, e, lt, (c, at_i, free), below) v =
    let at_r : get_elem? cs r ≡ some c = slot_at cs r i c e at_i in
    record {
      slot = c;
      at_r = at_r;
      free = free;
      table =
          update-IsTable g cs r c at_r
            (ap (drop 4095) (buffer c) ∙ AllEnded-get cs r c v.slots at_r)
            (λ x q. inr (λ h. n (subst (λ z. Has z cs) (ground (arith, q, fd c)) h))) v;
      others = λ x h. Has-after g cs r x c at_r (λ q. ground (arith, q, free)) h;
    }
