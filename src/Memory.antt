-- ===== src/Memory.antt =====
-- Writes into a run of bytes: a struct overlaid on a buffer, or a file written at its offset.
use lowlevel_academy.Prelude.{
  append-nil, ℕ, zero, suc, ◌+◌, ◌≤◌, ◌≡◌, refl, ap, sym, ◌∙◌, List, [], ◌∷◌, ◌++◌, arith, drop,
  length,
}
use Prim.Native.Nat.{max}
pub mod Bytes

-- `bs` over the front of `xs`, which grows where it is too short.
unfoldable pub put_over : List ℕ → List ℕ → List ℕ
put_over [] xs = xs
put_over (b ∷ bs) [] = b ∷ bs
put_over (b ∷ bs) (x ∷ xs) = b ∷ put_over bs xs

-- `bs` at the offset. A gap behind the end is filled with zeros, as in a file, and a write of no
-- bytes fills none.
unfoldable pub write_bytes : ℕ → List ℕ → List ℕ → List ℕ
unfolding put_over
write_bytes zero bs xs = put_over bs xs
write_bytes (suc n) [] [] = []
write_bytes (suc n) (b ∷ bs) [] = 0 ∷ write_bytes n (b ∷ bs) []
write_bytes (suc n) bs (x ∷ xs) = x ∷ write_bytes n bs xs

pub put_over-nil : (a : List ℕ) → put_over a [] ≡ a
unfolding put_over
put_over-nil [] = refl
put_over-nil (c ∷ a) = refl

write-put_over : (a b xs : List ℕ) → write_bytes (length a) b (put_over a xs) ≡ put_over (a ++ b) xs
unfolding write_bytes
write-put_over [] b xs = refl
write-put_over (c ∷ a) b [] =
    ap (λ t. c ∷ t)
      (ap (write_bytes (length a) b) (sym (put_over-nil a))
        ∙ write-put_over a b []
        ∙ put_over-nil (a ++ b))
write-put_over (c ∷ a) b (x ∷ xs) = ap (λ t. c ∷ t) (write-put_over a b xs)

-- Two writes in a row are one write of both.
pub write-write :
    (n k : ℕ) (a b xs : List ℕ)
    → k ≡ n + length a
    → write_bytes k b (write_bytes n a xs) ≡ write_bytes n (a ++ b) xs
unfolding write_bytes
write-write zero k a b xs e =
    ap (λ j. write_bytes j b (put_over a xs)) (e ∙ omega arith) ∙ write-put_over a b xs
write-write (suc n) zero a b xs e = absurd (omega arith)
write-write (suc n) (suc k) [] b [] e =
    ap (λ j. write_bytes j b []) {x = suc k} {y = suc n} (omega arith)
write-write (suc n) (suc k) (c ∷ a) [] [] e =
    ap (λ t. 0 ∷ t) (write-write n k (c ∷ a) [] [] (omega arith))
write-write (suc n) (suc k) (c ∷ a) (d ∷ b) [] e =
    ap (λ t. 0 ∷ t) (write-write n k (c ∷ a) (d ∷ b) [] (omega arith))
write-write (suc n) (suc k) a b (x ∷ xs) e = ap (λ t. x ∷ t) (write-write n k a b xs (omega arith))

pub length-put_over : (a xs : List ℕ) → length (put_over a xs) ≡ max (length a) (length xs)
unfolding put_over
length-put_over [] xs = omega arith
length-put_over (c ∷ a) [] = omega arith
length-put_over (c ∷ a) (x ∷ xs) = omega (arith, length-put_over a xs)

-- A write inside the old bytes keeps their number.
pub length-write_bytes :
    (n : ℕ) (a xs : List ℕ) → n + length a ≤ length xs → length (write_bytes n a xs) ≡ length xs
unfolding write_bytes
length-write_bytes zero a xs h = omega (arith, length-put_over a xs)
length-write_bytes (suc n) a [] h = absurd (omega arith)
length-write_bytes (suc n) a (x ∷ xs) h = ap suc (length-write_bytes n a xs (omega arith))

pub write_bytes-nil : (n : ℕ) (xs : List ℕ) → write_bytes n [] xs ≡ xs
unfolding write_bytes
write_bytes-nil zero xs = refl
write_bytes-nil (suc n) [] = refl
write_bytes-nil (suc n) (x ∷ xs) = ap (λ t. x ∷ t) (write_bytes-nil n xs)

-- A write over all of the old bytes leaves just what is written.
pub put_over-all : (a xs : List ℕ) → length xs ≤ length a → put_over a xs ≡ a
unfolding put_over
put_over-all [] [] h = refl
put_over-all [] (x ∷ xs) h = absurd (omega arith)
put_over-all (c ∷ a) [] h = refl
put_over-all (c ∷ a) (x ∷ xs) h = ap (λ t. c ∷ t) (put_over-all a xs (omega arith))

pub put_over-front : (b c r : List ℕ) → length b ≡ length c → put_over b (c ++ r) ≡ b ++ r
unfolding put_over
put_over-front [] [] r k = refl
put_over-front [] (y ∷ c) r k = absurd (omega arith)
put_over-front (x ∷ b) [] r k = absurd (omega arith)
put_over-front (x ∷ b) (y ∷ c) r k = ap (λ t. x ∷ t) (put_over-front b c r (omega arith))

-- A write inside the bytes replaces as many as it writes.
pub write_bytes-middle :
    (n : ℕ) (a b c r : List ℕ)
    → length a ≡ n
    → length b ≡ length c
    → write_bytes n b (a ++ (c ++ r)) ≡ a ++ (b ++ r)
unfolding write_bytes
write_bytes-middle zero [] b c r h k = put_over-front b c r k
write_bytes-middle zero (x ∷ a) b c r h k = absurd (omega arith)
write_bytes-middle (suc n) [] b c r h k = absurd (omega arith)
write_bytes-middle (suc n) (x ∷ a) b c r h k =
    ap (λ t. x ∷ t) (write_bytes-middle n a b c r (omega arith) k)

-- What lies behind a write is not touched.
drop-put_over : (n : ℕ) (a xs : List ℕ) → length a ≤ n → drop n (put_over a xs) ≡ drop n xs
unfolding put_over
drop-put_over n [] xs h = refl
drop-put_over zero (y ∷ a) xs h = absurd (omega arith)
drop-put_over (suc n) (y ∷ a) [] h = drop-nil n a (omega arith)
  where
    drop-nil : (k : ℕ) (b : List ℕ) → length b ≤ k → drop k b ≡ []
    drop-nil zero [] g = refl
    drop-nil zero (z ∷ b) g = absurd (omega arith)
    drop-nil (suc k) [] g = refl
    drop-nil (suc k) (z ∷ b) g = drop-nil k b (omega arith)
drop-put_over (suc n) (y ∷ a) (x ∷ xs) h = drop-put_over n a xs (omega arith)

pub drop-write_bytes :
    (n k : ℕ) (a xs : List ℕ)
    → n + length a ≤ k
    → n ≤ length xs
    → drop k (write_bytes n a xs) ≡ drop k xs
unfolding write_bytes
drop-write_bytes zero k a xs h g = drop-put_over k a xs (omega arith)
drop-write_bytes (suc n) zero a xs h g = absurd (omega arith)
drop-write_bytes (suc n) (suc k) a [] h g = absurd (omega arith)
drop-write_bytes (suc n) (suc k) a (x ∷ xs) h g =
    drop-write_bytes n k a xs (omega arith) (omega arith)

-- What a write over the front leaves.
pub put_over-drop : (a xs : List ℕ) → put_over a xs ≡ a ++ drop (length a) xs
unfolding put_over
put_over-drop [] xs = refl
put_over-drop (y ∷ a) [] = ap (λ t. y ∷ t) (sym (append-nil a))
put_over-drop (y ∷ a) (x ∷ xs) = ap (λ t. y ∷ t) (put_over-drop a xs)

pub write_bytes-drop : (a xs : List ℕ) → write_bytes 0 a xs ≡ a ++ drop (length a) xs
unfolding write_bytes
write_bytes-drop a xs = put_over-drop a xs
