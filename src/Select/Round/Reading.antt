-- ===== src/Select/Round/Reading.antt =====
-- What a round does to the slots of single clients.
use lowlevel_academy.Prelude.{
  ℕ, zero, suc, ◌≡◌, refl, sym, subst, ◌∙◌, Bool, true, false, if◌then◌else◌, List, [], ◌∷◌, Option,
  none, some, arith, length, get_elem?,
}
use lowlevel_academy.Memory.{write_bytes, put_over-all}
use lowlevel_academy.Cstring.{c_string}
use lowlevel_academy.Cstring.Copy.{NoNul}
use lowlevel_academy.Select.{ClientState}
use lowlevel_academy.Select.Round.{
  Loop, printed, receive, serve_fd, keep_slot, serve_slots, closed_by, is_set, sets_fit, round,
  serve_round, serve_loop,
}

c_string-none : (s : List ℕ) → NoNul s → c_string s ≡ none
unfolding c_string
c_string-none [] v = refl
c_string-none (zero ∷ s) v = absurd (omega arith)
c_string-none (suc c ∷ s) v = rw (c_string-none s v.1) refl

-- A client that sends 4096 bytes at once, none of them a NUL, makes the server print from a buffer
-- in which no NUL is left: it reads behind the buffer.
pub receive_unterminated :
    (bytes : List ℕ) (c : ClientState)
    → length c.buffer ≡ 4096
    → length bytes ≡ 4096
    → NoNul bytes
    → receive bytes c ≡ none
unfolding receive printed write_bytes
receive_unterminated [] c h k v = absurd (omega arith)
receive_unterminated (x ∷ bytes) c h k v =
    rw (put_over-all (x ∷ bytes) c.buffer (omega arith), c_string-none (x ∷ bytes) v) refl

-- A slot that is free, or whose descriptor is not set.
abbrev pub IsIdle : (ℕ → Bool) → Option ℕ → Type 0
IsIdle isset none = Unit {0}
IsIdle isset (some d) = isset d ≡ false

serve_fd-IsIdle :
    (isset : ℕ → Bool) (reads : ℕ → List ℕ) (o : Option ℕ) (c : ClientState)
    → IsIdle isset o
    → serve_fd isset reads o c ≡ some c
unfolding serve_fd
serve_fd-IsIdle isset reads none c v = refl
serve_fd-IsIdle isset reads (some d) c v = rw v refl

-- What keep_slot is made of.
keep_slot-some :
    (o : Option ClientState) (r : Option Loop) (l : Loop)
    → keep_slot o r ≡ some l
    → (c : ClientState) × (t : Loop) × (o ≡ some c) × (r ≡ some t) × (l.clients ≡ c ∷ t.clients)
unfolding keep_slot
keep_slot-some (some c) (some t) l p = (c, t, refl, refl, ground arith)
keep_slot-some (some c) none l p = ground arith
keep_slot-some none r l p = ground arith

serve_slots-IsIdle :
    (isset : ℕ → Bool) (reads : ℕ → List ℕ) (cs : List ClientState) (closed : List ℕ) (l : Loop)
    (i : ℕ) (c : ClientState)
    → serve_slots isset reads cs closed ≡ some l
    → get_elem? cs i ≡ some c
    → IsIdle isset c.fd
    → get_elem? l.clients i ≡ some c
unfolding serve_slots
serve_slots-IsIdle isset reads [] closed l i c p q v = ground arith
serve_slots-IsIdle isset reads (x ∷ cs) closed l zero c p q v =
    let (y, t, r, s, u) = keep_slot-some _ _ l p in
    let k : x ≡ c = ground arith in
    let w : IsIdle isset x.fd = subst (λ z. IsIdle isset z.fd) (sym k) v in
    rw u (sym r ∙ serve_fd-IsIdle isset reads x.fd x w ∙ q)
serve_slots-IsIdle isset reads (x ∷ cs) closed l (suc i) c p q v =
    let (y, t, r, s, u) = keep_slot-some _ _ l p in
    rw u (serve_slots-IsIdle isset reads cs (closed_by isset reads x.fd closed) t i c s q v)

not_set :
    (ready : ℕ → Bool) (listen_fd : ℕ) (cs : List ClientState) (o : Option ℕ)
    → IsIdle ready o
    → IsIdle (is_set ready listen_fd cs) o
unfolding is_set
not_set ready k cs none w = tt
not_set ready k cs (some d) w = rw w refl

if_some : (b : Bool) (o : Option Loop) (l : Loop) → (if b then o else none) ≡ some l → o ≡ some l
if_some true o l p = p
if_some false o l p = ground arith

-- In a round with no new connection, a slot keeps its descriptor, its state and its buffer if it is
-- free or if its descriptor is not ready, whatever the other clients do.
pub round-IsIdle :
    (listen_fd : ℕ) (ready : ℕ → Bool) (reads : ℕ → List ℕ) (l l' : Loop) (i : ℕ) (c : ClientState)
    → round listen_fd (record { ready = ready; accepted = none; reads = reads }) l ≡ some l'
    → get_elem? l.clients i ≡ some c
    → IsIdle ready c.fd
    → get_elem? l'.clients i ≡ some c
unfolding round serve_round serve_loop
round-IsIdle listen_fd ready reads l l' i c p q v =
    let isset = is_set ready listen_fd l.clients in
    let served : serve_slots isset reads l.clients l.closed ≡ some l' =
      if_some (sets_fit listen_fd l.clients) (serve_slots isset reads l.clients l.closed) l' p in
    serve_slots-IsIdle isset reads l.clients l.closed l' i c served q
      (not_set ready listen_fd l.clients c.fd v)
