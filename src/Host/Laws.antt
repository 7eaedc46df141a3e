-- ===== src/Host/Laws.antt =====
-- Laws of the conversions between host and network order.
use lowlevel_academy.Prelude.{ℕ, ◌<◌, ◌≡◌, refl, List, ◌++◌, arith, length}
use lowlevel_academy.Host.{
  Endian, little, big, store16, store32, load16, load32, htons, htonl, ntohs, ntohl,
}

pub ntohs-htons : (e : Endian) (x : ℕ) → x < 65536 → ntohs e (htons e x) ≡ x
unfolding ntohs
ntohs-htons little x h = omega arith
ntohs-htons big x h = omega arith

pub ntohl-htonl : (e : Endian) (x : ℕ) → x < 4294967296 → ntohl e (htonl e x) ≡ x
unfolding ntohl
ntohl-htonl little x h = omega arith
ntohl-htonl big x h = omega arith

-- What a converted number looks like in memory does not depend on the host.
pub store16-htons : (e : Endian) (x : ℕ) → store16 e (htons e x) ≡ store16 big x
unfolding store16 htons
store16-htons little x = ground arith
store16-htons big x = ground arith

pub store32-htonl : (e : Endian) (x : ℕ) → store32 e (htonl e x) ≡ store32 big x
unfolding store32 htonl
store32-htonl little x = ground arith
store32-htonl big x = ground arith

pub ntohs-load16 :
    (e : Endian) (x : ℕ) (rest : List ℕ)
    → x < 65536
    → ntohs e (load16 e (store16 big x ++ rest)) ≡ x
unfolding store16 load16 ntohs
ntohs-load16 little x rest h = omega arith
ntohs-load16 big x rest h = omega arith

pub ntohl-load32 :
    (e : Endian) (x : ℕ) (rest : List ℕ)
    → x < 4294967296
    → ntohl e (load32 e (store32 big x ++ rest)) ≡ x
unfolding store32 load32 ntohl
ntohl-load32 little x rest h = omega arith
ntohl-load32 big x rest h = omega arith

pub length-store16 : (e : Endian) (x : ℕ) → length (store16 e x) ≡ 2
unfolding store16
length-store16 little x = refl
length-store16 big x = refl

pub length-store32 : (e : Endian) (x : ℕ) → length (store32 e x) ≡ 4
unfolding store32
length-store32 little x = refl
length-store32 big x = refl

pub load16-store16 :
    (e : Endian) (x : ℕ) (rest : List ℕ) → x < 65536 → load16 e (store16 e x ++ rest) ≡ x
unfolding store16 load16
load16-store16 little x rest h = omega arith
load16-store16 big x rest h = omega arith

pub load32-store32 :
    (e : Endian) (x : ℕ) (rest : List ℕ) → x < 4294967296 → load32 e (store32 e x ++ rest) ≡ x
unfolding store32 load32
load32-store32 little x rest h = omega arith
load32-store32 big x rest h = omega arith
