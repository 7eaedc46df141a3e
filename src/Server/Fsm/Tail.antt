-- ===== src/Server/Fsm/Tail.antt =====
-- What is written into a client's buffer leaves its last byte alone.
use lowlevel_academy.Prelude.{
  ℕ, zero, suc, ◌+◌, ◌≡◌, ◌≤◌, refl, ap, sym, ◌∙◌, List, [], ◌∷◌, ◌++◌, some, take, drop, length,
  arith, subst, length-append, length-take, length-drop, drop-append,
}
use lowlevel_academy.Host.{Endian, store16, store32, htonl, htons, ntohl}
use lowlevel_academy.Host.Laws.{length-store16, length-store32}
use lowlevel_academy.Memory.{write_bytes, length-write_bytes, drop-write_bytes}
use lowlevel_academy.Cstring.{strncpy, c_string}
use lowlevel_academy.Cstring.Copy.{length-strncpy, length-c_string, c_string-Splits, Splits}
use lowlevel_academy.Database.{Employee}
use lowlevel_academy.Database.Add.{Db}
use lowlevel_academy.Protocol.{
  get_type, proto_hton, proto_ntoh, set_type, set_length, set_proto, header_hton, header_ntoh,
}
use lowlevel_academy.Server.Fsm.{
  fsm_reply_hello, Reply, reply_header, put_employee, add_sent, send_employees, fsm_reply_list,
}

-- The second buffer has the size of the first, and its last byte.
pub record Keeps (old new : List ℕ) : Type 0 where
  pub size : length new ≡ length old
  pub tail : drop 4095 new ≡ drop 4095 old

pub Keeps-refl : (b : List ℕ) → Keeps b b
Keeps-refl b = record { size = refl; tail = refl }

pub Keeps-trans : (a b c : List ℕ) → Keeps a b → Keeps b c → Keeps a c
Keeps-trans a b c v w = record { size = w.size ∙ v.size; tail = w.tail ∙ v.tail }

Keeps-write_bytes :
    (n : ℕ) (a old : List ℕ)
    → n + length a ≤ 4095
    → length old ≡ 4096
    → Keeps old (write_bytes n a old)
Keeps-write_bytes n a old h k = record {
  size = length-write_bytes n a old (omega arith);
  tail = drop-write_bytes n 4095 a old h (omega arith);
}

module _ (e : Endian) where
  Keeps-set_type : (x : ℕ) (b : List ℕ) → length b ≡ 4096 → Keeps b (set_type e x b)
  unfolding set_type
  Keeps-set_type x b h = Keeps-write_bytes 0 (store32 e x) b (omega (arith, length-store32 e x)) h

  Keeps-set_length : (x : ℕ) (b : List ℕ) → length b ≡ 4096 → Keeps b (set_length e x b)
  unfolding set_length
  Keeps-set_length x b h = Keeps-write_bytes 4 (store16 e x) b (omega (arith, length-store16 e x)) h

  Keeps-set_proto : (x : ℕ) (b : List ℕ) → length b ≡ 4096 → Keeps b (set_proto e x b)
  unfolding set_proto
  Keeps-set_proto x b h = Keeps-write_bytes 8 (store16 e x) b (omega (arith, length-store16 e x)) h

  -- Type and length are written one after the other.
  Keeps-fields :
      (x y : ℕ) (b : List ℕ) → length b ≡ 4096 → Keeps b (set_length e y (set_type e x b))
  Keeps-fields x y b h =
      let v = Keeps-set_type x b h in
      Keeps-trans b _ _ v (Keeps-set_length y (set_type e x b) (v.size ∙ h))

  pub Keeps-header_ntoh : (b : List ℕ) → length b ≡ 4096 → Keeps b (header_ntoh e b)
  unfolding header_ntoh
  Keeps-header_ntoh b h = Keeps-fields _ _ b h

  Keeps-header_hton : (b : List ℕ) → length b ≡ 4096 → Keeps b (header_hton e b)
  unfolding header_hton
  Keeps-header_hton b h = Keeps-fields _ _ b h

  pub Keeps-proto_ntoh : (b : List ℕ) → length b ≡ 4096 → Keeps b (proto_ntoh e b)
  unfolding proto_ntoh
  Keeps-proto_ntoh b h = Keeps-set_proto _ b h

  pub Keeps-reply_header :
      (x : ℕ) (b : List ℕ) → length b ≡ 4096 → Keeps b (reply_header e x b).buffer
  unfolding reply_header
  Keeps-reply_header x b h =
      let v = Keeps-fields x 0 b h in Keeps-trans b _ _ v (Keeps-header_hton _ (v.size ∙ h))

  pub Keeps-fsm_reply_hello : (b : List ℕ) → length b ≡ 4096 → Keeps b (fsm_reply_hello e b).buffer
  unfolding fsm_reply_hello proto_hton
  Keeps-fsm_reply_hello b h =
      let v = Keeps-fields 2 1 b h in
      let w = Keeps-set_proto 100 _ (v.size ∙ h) in
      let x = Keeps-header_hton _ (w.size ∙ v.size ∙ h) in
      let y = Keeps-set_proto _ _ (x.size ∙ w.size ∙ v.size ∙ h) in
      Keeps-trans b _ _ v (Keeps-trans _ _ _ w (Keeps-trans _ _ _ x y))

  Keeps-put_employee : (x : Employee) (b : List ℕ) → length b ≡ 4096 → Keeps b (put_employee e x b)
  unfolding put_employee
  Keeps-put_employee x b h =
      let n : List ℕ = strncpy 256 x.name in
      let a : List ℕ = strncpy 256 x.address in
      let z : List ℕ = store32 e (htonl e x.hours) in
      let b1 : List ℕ = write_bytes 8 n b in
      let b2 : List ℕ = write_bytes 264 a b1 in
      let v : Keeps b b1 = Keeps-write_bytes 8 n b (omega (arith, length-strncpy 256 x.name)) h in
      let w : Keeps b1 b2 =
        Keeps-write_bytes 264 a b1 (omega (arith, length-strncpy 256 x.address)) (v.size ∙ h) in
      let y : Keeps b2 (write_bytes 520 z b2) =
        Keeps-write_bytes 520 z b2 (omega (arith, length-store32 e (htonl e x.hours)))
          (w.size ∙ v.size ∙ h) in
      Keeps-trans b b1 _ v (Keeps-trans b1 b2 _ w y)

  -- As many rounds as there are employees read inside the array.
  Keeps-send_employees :
      (n : ℕ) (es : List Employee) (b : List ℕ)
      → n ≡ length es
      → length b ≡ 4096
      → (r : Reply) × (send_employees e n es b ≡ some r) × Keeps b r.buffer
  unfolding send_employees add_sent
  Keeps-send_employees zero es b p h = (record { buffer = b; sent = [] }, refl, Keeps-refl b)
  Keeps-send_employees (suc n) [] b p h = absurd (omega arith)
  Keeps-send_employees (suc n) (x ∷ es) b p h =
      let v = Keeps-put_employee x b h in
      let (r, q, w) = Keeps-send_employees n es (put_employee e x b) (omega arith) (v.size ∙ h) in
      rw q (_, refl, Keeps-trans b _ _ v w)

  pub Keeps-fsm_reply_list :
      (db : Db) (b : List ℕ)
      → db.header.count ≡ length db.employees
      → length b ≡ 4096
      → (r : Reply) × (fsm_reply_list e db b ≡ some r) × Keeps b r.buffer
  unfolding fsm_reply_list add_sent
  Keeps-fsm_reply_list db b p h =
      let v = Keeps-fields (htonl e 4) (htons e db.header.count) b h in
      let (r, q, w) = Keeps-send_employees db.header.count db.employees _ p (v.size ∙ h) in
      rw q (_, refl, Keeps-trans b _ _ v w)

drop-behind :
    (n : ℕ) (s t r : List ℕ)
    → length s ≡ length t
    → length s ≤ n
    → drop n (s ++ r) ≡ drop n (t ++ r)
drop-behind n [] [] r h k = refl
drop-behind n [] (y ∷ t) r h k = absurd (omega arith)
drop-behind n (x ∷ s) [] r h k = absurd (omega arith)
drop-behind zero (x ∷ s) (y ∷ t) r h k = absurd (omega arith)
drop-behind (suc n) (x ∷ s) (y ∷ t) r h k = drop-behind n s t r (omega arith) (omega arith)

pub drop-drop : (m n : ℕ) (b : List ℕ) → drop m (drop n b) ≡ drop (n + m) b
drop-drop m zero b = ap (λ k. drop k b) (omega arith)
drop-drop zero (suc n) [] = let e : suc n + 0 ≡ suc n = omega arith in rw e refl
drop-drop (suc m) (suc n) [] = let e : suc n + suc m ≡ suc (n + suc m) = omega arith in rw e refl
drop-drop m (suc n) (x ∷ b) =
    let e : suc n + m ≡ suc (n + m) = omega arith in rw e (drop-drop m n b)

-- A text in the buffer is replaced by one of its length, with the NUL behind it.
pub Keeps-text :
    (b text cut behind : List ℕ)
    → length b ≡ 4096
    → c_string (drop 8 b) ≡ some (text, behind)
    → length cut ≡ length text
    → Keeps b (take 8 b ++ (cut ++ 0 ∷ behind))
Keeps-text b text cut behind h p q =
    let n = length-c_string (drop 8 b) text behind p in
    let d = length-drop 8 b in
    let t = length-take 8 b in
    let split : Splits (drop 8 b) (some (text, behind)) =
      subst (Splits (drop 8 b)) p (c_string-Splits (drop 8 b)) in
    record {
      size =
          omega
            (arith, length-append (take 8 b) (cut ++ 0 ∷ behind), length-append cut (0 ∷ behind));
      tail =
          sym (drop-drop 4087 8 (take 8 b ++ (cut ++ 0 ∷ behind)))
          ∙ ap (drop 4087) (drop-append 8 (take 8 b) (cut ++ 0 ∷ behind) (omega arith))
          ∙ drop-behind 4087 cut text (0 ∷ behind) q (omega arith)
          ∙ ap (drop 4087) (sym split.0)
          ∙ drop-drop 4087 8 b;
    }

length-set_type :
    (e : Endian) (x : ℕ) (buf : List ℕ) → 6 ≤ length buf → length (set_type e x buf) ≡ length buf
unfolding set_type
length-set_type e x buf h =
    length-write_bytes 0 (store32 e x) buf (omega (arith, length-store32 e x))

drop-set_type : (e : Endian) (x : ℕ) (buf : List ℕ) → drop 8 (set_type e x buf) ≡ drop 8 buf
unfolding set_type
drop-set_type e x buf =
    drop-write_bytes 0 8 (store32 e x) buf (omega (arith, length-store32 e x)) (omega arith)

drop-set_length :
    (e : Endian) (x : ℕ) (buf : List ℕ) → 6 ≤ length buf → drop 8 (set_length e x buf) ≡ drop 8 buf
unfolding set_length
drop-set_length e x buf h =
    drop-write_bytes 4 8 (store16 e x) buf (omega (arith, length-store16 e x)) (omega arith)

-- The header is read without a change to what is behind it.
pub drop-header_ntoh :
    (e : Endian) (buf : List ℕ) → 6 ≤ length buf → drop 8 (header_ntoh e buf) ≡ drop 8 buf
unfolding header_ntoh
drop-header_ntoh e buf h =
    drop-set_length e _ _ (omega (arith, length-set_type e (ntohl e (get_type e buf)) buf h))
    ∙ drop-set_type e _ buf
