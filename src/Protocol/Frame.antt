-- ===== src/Protocol/Frame.antt =====
-- A message as its header and what follows it, in the order of a host or of the network.
use lowlevel_academy.Prelude.{
  ℕ, ◌≡◌, ◌<◌, ◌+◌, refl, ap, sym, ◌∙◌, List, [], ◌∷◌, ◌++◌, take, drop, length, length-append,
  arith, drop-append,
}
use lowlevel_academy.Host.{htonl, Endian, little, big, store16, store32, htons}
use lowlevel_academy.Host.Laws.{
  ntohs-load16, ntohl-load32, store16-htons, store32-htonl, length-store16, length-store32,
  load16-store16, load32-store32,
}
use lowlevel_academy.Memory.{put_over, put_over-front, write_bytes, write_bytes-middle}
use lowlevel_academy.Protocol.{
  get_type, set_type, get_length, set_length, get_proto, set_proto, header_hton, header_ntoh,
  proto_hton, proto_ntoh,
}

-- The type, the length, and the rest: two bytes of padding first.
unfoldable pub frame : Endian → ℕ → ℕ → List ℕ → List ℕ
frame e t n r = store32 e t ++ (store16 e n ++ r)

-- The two assignments that start a reply, on whatever header stood there.
pub set_header-frame :
    (e d : Endian) (x y t n : ℕ) (r : List ℕ)
    → set_length e y (set_type e x (frame d t n r)) ≡ frame e x y r
unfolding set_type set_length frame
set_header-frame e d x y t n r = rw (
  write_bytes-middle 0 [] (store32 e x) (store32 d t) (store16 d n ++ r) refl
      (length-store32 e x ∙ sym (length-store32 d t)),
  write_bytes-middle 4 (store32 e x) (store16 e y) (store16 d n) r (length-store32 e x)
      (length-store16 e y ∙ sym (length-store16 d n)),
)

-- The same, with values that are converted before they are stored.
pub set_net_header-frame :
    (e : Endian) (x y t n : ℕ) (r : List ℕ)
    → set_length e (htons e y) (set_type e (htonl e x) (frame e t n r)) ≡ frame big x y r
unfolding set_type set_length frame
set_net_header-frame e x y t n r = rw (
  write_bytes-middle 0 [] (store32 e (htonl e x)) (store32 e t) (store16 e n ++ r) refl
      (length-store32 e (htonl e x) ∙ sym (length-store32 e t)),
  write_bytes-middle 4 (store32 e (htonl e x)) (store16 e (htons e y)) (store16 e n) r
      (length-store32 e (htonl e x)) (length-store16 e (htons e y) ∙ sym (length-store16 e n)),
  store32-htonl e x,
  store16-htons e y,
)

pub get_type-frame :
    (e : Endian) (t n : ℕ) (r : List ℕ) → t < 4294967296 → get_type e (frame e t n r) ≡ t
unfolding get_type frame
get_type-frame e t n r h = load32-store32 e t _ h

pub get_length-frame :
    (e : Endian) (t n : ℕ) (r : List ℕ) → n < 65536 → get_length e (frame e t n r) ≡ n
unfolding get_length frame
get_length-frame e t n r h =
    rw (drop-append 4 (store32 e t) (store16 e n ++ r) (length-store32 e t))
      (load16-store16 e n r h)

-- What came from the network is read in place.
pub header_ntoh-frame :
    (e : Endian) (t n : ℕ) (r : List ℕ)
    → t < 4294967296
    → n < 65536
    → header_ntoh e (frame big t n r) ≡ frame e t n r
unfolding header_ntoh frame get_type set_type get_length set_length
header_ntoh-frame e t n r ht hn = rw (
  ntohl-load32 e t (store16 big n ++ r) ht,
  write_bytes-middle 0 [] (store32 e t) (store32 big t) (store16 big n ++ r) refl
      (length-store32 e t ∙ sym (length-store32 big t)),
  drop-append 4 (store32 e t) (store16 big n ++ r) (length-store32 e t),
  ntohs-load16 e n r hn,
  write_bytes-middle 4 (store32 e t) (store16 e n) (store16 big n) r (length-store32 e t)
      (length-store16 e n ∙ sym (length-store16 big n)),
)

-- What goes to the network is written in place.
pub header_hton-frame :
    (e : Endian) (t n : ℕ) (r : List ℕ)
    → t < 4294967296
    → n < 65536
    → header_hton e (frame e t n r) ≡ frame big t n r
unfolding header_hton frame get_type set_type get_length set_length
header_hton-frame e t n r ht hn = rw (
  load32-store32 e t (store16 e n ++ r) ht,
  store32-htonl e t,
  write_bytes-middle 0 [] (store32 big t) (store32 e t) (store16 e n ++ r) refl
      (length-store32 big t ∙ sym (length-store32 e t)),
  drop-append 4 (store32 big t) (store16 e n ++ r) (length-store32 big t),
  load16-store16 e n r hn,
  store16-htons e n,
  write_bytes-middle 4 (store32 big t) (store16 big n) (store16 e n) r (length-store32 big t)
      (length-store16 big n ∙ sym (length-store16 e n)),
)

pub length-frame : (e : Endian) (t n : ℕ) (r : List ℕ) → length (frame e t n r) ≡ 6 + length r
unfolding frame
length-frame e t n r = omega (
  arith,
  length-append (store32 e t) (store16 e n ++ r),
  length-append (store16 e n) r,
  length-store32 e t,
  length-store16 e n,
)

-- The message behind the header.
pub drop-frame : (e : Endian) (t n a b : ℕ) (r : List ℕ) → drop 8 (frame e t n (a ∷ b ∷ r)) ≡ r
unfolding frame store32 store16
drop-frame little t n a b r = refl
drop-frame big t n a b r = refl

pub take-frame :
    (e : Endian) (t n a b : ℕ) (r : List ℕ)
    → take 8 (frame e t n (a ∷ b ∷ r)) ≡ frame e t n (a ∷ b ∷ [])
unfolding frame store32 store16
take-frame little t n a b r = refl
take-frame big t n a b r = refl

-- A write behind the header.
pub write-frame :
    (e : Endian) (t n a b : ℕ) (bs r : List ℕ)
    → write_bytes 8 bs (frame e t n (a ∷ b ∷ r)) ≡ frame e t n (a ∷ b ∷ put_over bs r)
unfolding frame store32 store16 write_bytes
write-frame little t n a b bs r = refl
write-frame big t n a b bs r = refl

pub get_proto-frame :
    (c e : Endian) (t n a b p : ℕ) (r : List ℕ)
    → p < 65536
    → get_proto e (frame c t n (a ∷ b ∷ store16 e p ++ r)) ≡ p
unfolding get_proto
get_proto-frame c e t n a b p r h =
    rw (drop-frame c t n a b (store16 e p ++ r)) (load16-store16 e p r h)

pub set_proto-frame :
    (c e d : Endian) (t n a b p x : ℕ) (r : List ℕ)
    → set_proto e x (frame c t n (a ∷ b ∷ store16 d p ++ r))
      ≡ frame c t n (a ∷ b ∷ store16 e x ++ r)
unfolding set_proto
set_proto-frame c e d t n a b p x r =
    write-frame c t n a b (store16 e x) (store16 d p ++ r)
    ∙ ap (λ s. frame c t n (a ∷ b ∷ s))
        (put_over-front (store16 e x) (store16 d p) r
          (length-store16 e x ∙ sym (length-store16 d p)))

pub proto_ntoh-frame :
    (c e : Endian) (t n a b p : ℕ) (r : List ℕ)
    → p < 65536
    → proto_ntoh e (frame c t n (a ∷ b ∷ store16 big p ++ r))
      ≡ frame c t n (a ∷ b ∷ store16 e p ++ r)
unfolding proto_ntoh get_proto
proto_ntoh-frame c e t n a b p r h =
    rw (drop-frame c t n a b (store16 big p ++ r), ntohs-load16 e p r h)
      (set_proto-frame c e big t n a b p p r)

pub proto_hton-frame :
    (c e : Endian) (t n a b p : ℕ) (r : List ℕ)
    → p < 65536
    → proto_hton e (frame c t n (a ∷ b ∷ store16 e p ++ r))
      ≡ frame c t n (a ∷ b ∷ store16 big p ++ r)
unfolding proto_hton get_proto
proto_hton-frame c e t n a b p r h =
    rw (drop-frame c t n a b (store16 e p ++ r), load16-store16 e p r h)
      (set_proto-frame c e e t n a b p (htons e p) r
        ∙ ap (λ s. frame c t n (a ∷ b ∷ s ++ r)) (store16-htons e p))

pub take_hello-frame :
    (c e : Endian) (t n a b p : ℕ) (r : List ℕ)
    → take 10 (frame c t n (a ∷ b ∷ store16 e p ++ r)) ≡ frame c t n (a ∷ b ∷ store16 e p)
unfolding frame store32 store16
take_hello-frame little little t n a b p r = refl
take_hello-frame little big t n a b p r = refl
take_hello-frame big little t n a b p r = refl
take_hello-frame big big t n a b p r = refl

pub frame-append :
    (e : Endian) (t n a b : ℕ) (r : List ℕ)
    → frame e t n (a ∷ b ∷ r) ≡ frame e t n (a ∷ b ∷ []) ++ r
unfolding frame store32 store16
frame-append little t n a b r = refl
frame-append big t n a b r = refl

pub frame-behind :
    (e : Endian) (t n a b : ℕ) (r s : List ℕ)
    → frame e t n (a ∷ b ∷ r) ++ s ≡ frame e t n (a ∷ b ∷ r ++ s)
unfolding frame store32 store16
frame-behind little t n a b r s = refl
frame-behind big t n a b r s = refl
