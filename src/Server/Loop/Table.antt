-- ===== src/Server/Loop/Table.antt =====
-- The descriptors of the client table, and what a change of one slot does to them.
use lowlevel_academy.Prelude.{
  replicate, ℕ, zero, suc, ◌≡◌, ◌<◌, ◌≤◌, refl, ap, sym, subst, ◌∙◌, ◌⊎◌, inl, inr, List, [], ◌∷◌,
  Option, none, some, arith, length, get_elem?, drop,
}
use lowlevel_academy.Server.{ClientState}
use lowlevel_academy.Server.Slots.{fresh_client}
use lowlevel_academy.Server.Slots.Search.{IsFirst}
use lowlevel_academy.Server.Loop.{update_slot}
use lowlevel_academy.Server.Loop.Counting.{used, slot_weight}

-- A slot has the descriptor.
abbrev pub Has : ℕ → List ClientState → Type 0
Has d [] = ⊥
Has d (c ∷ cs) = (c.fd ≡ some d) ⊎ Has d cs

-- No two slots have one descriptor.
abbrev pub Distinct : List ClientState → Type 0
Distinct [] = Unit {0}
Distinct (c ∷ cs) = ((d : ℕ) → c.fd ≡ some d → ¬ Has d cs) × Distinct cs

-- The last byte of each buffer is a NUL, and it is the byte 4095.
abbrev pub AllEnded : List ClientState → Type 0
AllEnded [] = Unit {0}
AllEnded (c ∷ cs) = (drop 4095 c.buffer ≡ 0 ∷ []) × AllEnded cs

pub AllEnded-get :
    (cs : List ClientState) (i : ℕ) (c : ClientState)
    → AllEnded cs
    → get_elem? cs i ≡ some c
    → drop 4095 c.buffer ≡ 0 ∷ []
AllEnded-get [] i c v h = ground arith
AllEnded-get (x ∷ cs) zero c v h =
    let e : x ≡ c = ground arith in subst (λ z. drop 4095 z.buffer ≡ 0 ∷ []) e v.0
AllEnded-get (x ∷ cs) (suc i) c v h = AllEnded-get cs i c v.1 h

pub Has-get :
    (cs : List ClientState) (i d : ℕ) (c : ClientState)
    → get_elem? cs i ≡ some c
    → c.fd ≡ some d
    → Has d cs
Has-get [] i d c h p = ground arith
Has-get (x ∷ cs) zero d c h p = let e : x ≡ c = ground arith in inl (ap (λ z. z.fd) e ∙ p)
Has-get (x ∷ cs) (suc i) d c h p = inr (Has-get cs i d c h p)

pub get-Has :
    (d : ℕ) (cs : List ClientState)
    → Has d cs
    → (i : ℕ) × (c : ClientState) × (i < length cs) × (get_elem? cs i ≡ some c) × (c.fd ≡ some d)
get-Has d [] h = absurd h
get-Has d (c ∷ cs) (inl p) = (0, c, omega arith, refl, p)
get-Has d (c ∷ cs) (inr h) = let (i, x, lt, g, p) = get-Has d cs h in (suc i, x, omega arith, g, p)

-- A descriptor that a slot has is found.
pub IsFirst-Has :
    (d : ℕ) (cs : List ClientState) (o : Option ℕ)
    → Has d cs
    → IsFirst (some d) 0 cs o
    → (r : ℕ) × (c : ClientState) × (o ≡ some r) × (get_elem? cs r ≡ some c) × (c.fd ≡ some d)
IsFirst-Has d cs none h f = let (i, c, lt, g, p) = get-Has d cs h in absurd (f i c lt g p)
IsFirst-Has d cs (some r) h (i, e, lt, (c, g, p), below) =
    let same : r ≡ i = omega arith in (r, c, refl, ap (get_elem? cs) same ∙ g, p)

-- One slot is changed by `g`.
module _ (g : ClientState → ClientState) where
  pub length-update_slot : (cs : List ClientState) (i : ℕ) → length (update_slot i g cs) ≡ length cs
  unfolding update_slot
  length-update_slot [] i = refl
  length-update_slot (c ∷ cs) zero = refl
  length-update_slot (c ∷ cs) (suc i) = ap suc (length-update_slot cs i)

  pub AllEnded-update_slot :
      (cs : List ClientState) (i : ℕ) (c : ClientState)
      → get_elem? cs i ≡ some c
      → drop 4095 (g c).buffer ≡ 0 ∷ []
      → AllEnded cs
      → AllEnded (update_slot i g cs)
  unfolding update_slot
  AllEnded-update_slot [] i c h k v = tt
  AllEnded-update_slot (x ∷ cs) zero c h k v =
      let e : c ≡ x = ground arith in (subst (λ z. drop 4095 (g z).buffer ≡ 0 ∷ []) e k, v.1)
  AllEnded-update_slot (x ∷ cs) (suc i) c h k v = (v.0, AllEnded-update_slot cs i c h k v.1)

  -- What has it afterwards is the changed slot, or had it before; and the converse.
  pub Has-before :
      (cs : List ClientState) (i d : ℕ) (c : ClientState)
      → get_elem? cs i ≡ some c
      → Has d (update_slot i g cs)
      → ((g c).fd ≡ some d) ⊎ Has d cs
  unfolding update_slot
  Has-before [] i d c h u = inr u
  Has-before (x ∷ cs) zero d c h (inl p) =
      let e : c ≡ x = ground arith in inl (ap (λ z. (g z).fd) e ∙ p)
  Has-before (x ∷ cs) zero d c h (inr u) = inr (inr u)
  Has-before (x ∷ cs) (suc i) d c h (inl p) = inr (inl p)
  Has-before (x ∷ cs) (suc i) d c h (inr u) = elim (Has-before cs i d c h u) [
    | inl p ↦ inl p
    | inr v ↦ inr (inr v)
  ]

  pub Has-after :
      (cs : List ClientState) (i d : ℕ) (c : ClientState)
      → get_elem? cs i ≡ some c
      → (c.fd ≡ some d → (g c).fd ≡ some d)
      → Has d cs
      → Has d (update_slot i g cs)
  unfolding update_slot
  Has-after [] i d c h k u = absurd u
  Has-after (x ∷ cs) zero d c h k (inl p) =
      let e : c ≡ x = ground arith in inl (ap (λ z. (g z).fd) (sym e) ∙ k (ap (λ z. z.fd) e ∙ p))
  Has-after (x ∷ cs) zero d c h k (inr u) = inr u
  Has-after (x ∷ cs) (suc i) d c h k (inl p) = inl p
  Has-after (x ∷ cs) (suc i) d c h k (inr u) = inr (Has-after cs i d c h k u)

  -- The changed slot has its old descriptor, or one that is new, or none.
  pub Distinct-update_slot :
      (cs : List ClientState) (i : ℕ) (c : ClientState)
      → get_elem? cs i ≡ some c
      → ((d : ℕ) → (g c).fd ≡ some d → (c.fd ≡ some d) ⊎ (¬ Has d cs))
      → Distinct cs
      → Distinct (update_slot i g cs)
  unfolding update_slot
  Distinct-update_slot [] i c h k v = tt
  Distinct-update_slot (x ∷ cs) zero c h k v =
      let e : c ≡ x = ground arith in
      (
        λ d p u. elim (k d (ap (λ z. (g z).fd) e ∙ p)) [
          | inl q ↦ v.0 d (ap (λ z. z.fd) (sym e) ∙ q) u
          | inr n ↦ n (inr u)
        ],
        v.1,
      )
  Distinct-update_slot (x ∷ cs) (suc i) c h k v = (
    λ d p u. elim (Has-before cs i d c h u) [
      | inl q ↦ elim (k d q) [ inl r ↦ v.0 d p (Has-get cs i d c h r) | inr n ↦ n (inl p) ]
      | inr w ↦ v.0 d p w
    ],
    Distinct-update_slot cs i c h
        (λ d q. elim (k d q) [ inl r ↦ inl r | inr n ↦ inr (λ u. n (inr u)) ]) v.1,
  )

pub used-le : (cs : List ClientState) → used cs ≤ length cs
used-le [] = omega arith
used-le (c ∷ cs) = omega (arith, used-le cs, weight-le c.fd)
  where
    weight-le : (o : Option ℕ) → slot_weight o ≤ 1
    weight-le none = omega arith
    weight-le (some d) = omega arith

-- The table at the start.
pub all_fresh : (n : ℕ) → AllEnded (replicate n fresh_client) × Distinct (replicate n fresh_client)
unfolding fresh_client
all_fresh zero = (tt, tt)
all_fresh (suc n) = ((refl, (all_fresh n).0), ((λ d q. cc), (all_fresh n).1))

pub used-fresh : (n : ℕ) → used (replicate n fresh_client) ≡ 0
unfolding fresh_client
used-fresh zero = refl
used-fresh (suc n) = omega (arith, used-fresh n)

pub Has-fresh : (n d : ℕ) → ¬ Has d (replicate n fresh_client)
unfolding fresh_client
Has-fresh zero d h = h
Has-fresh (suc n) d (inl p) = cc
Has-fresh (suc n) d (inr h) = Has-fresh n d h
