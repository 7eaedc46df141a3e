-- ===== src/Cstring/Copy.antt =====
-- Laws of `c_string` and `strncpy`.
use lowlevel_academy.Prelude.{
  ℕ, zero, suc, ◌+◌, ◌-◌, ◌≤◌, ◌<◌, ◌≡◌, refl, ap, ◌∙◌, List, [], ◌∷◌, ◌++◌, Option, none, some,
  arith, length, replicate, subst, sym, length-append, drop,
}
use lowlevel_academy.Cstring.{c_string, strncpy}

-- No character is NUL.
abbrev pub NoNul : List ℕ → Type 0
NoNul [] = Unit {0}
NoNul (c ∷ s) = (0 < c) × NoNul s

pub length-strncpy : (n : ℕ) (s : List ℕ) → length (strncpy n s) ≡ n
unfolding strncpy
length-strncpy zero s = refl
length-strncpy (suc n) [] = ap suc (length-strncpy n [])
length-strncpy (suc n) (zero ∷ s) = ap suc (length-strncpy n [])
length-strncpy (suc n) (suc c ∷ s) = ap suc (length-strncpy n s)

-- A copy of a copy is the copy: an array that `strncpy` filled is left as it is by another.
pub strncpy_idem : (n : ℕ) (s : List ℕ) → strncpy n (strncpy n s) ≡ strncpy n s
unfolding strncpy
strncpy_idem zero s = refl
strncpy_idem (suc n) [] = refl
strncpy_idem (suc n) (zero ∷ s) = refl
strncpy_idem (suc n) (suc c ∷ s) = ap (λ r. suc c ∷ r) (strncpy_idem n s)

pub strncpy-nil : (n : ℕ) → strncpy n [] ≡ replicate n 0
unfolding strncpy
strncpy-nil zero = refl
strncpy-nil (suc n) = ap (λ r. 0 ∷ r) (strncpy-nil n)

-- A text that fits is followed by zeros, whatever follows its NUL.
pub strncpy_of_le :
    (n : ℕ) (s : List ℕ) → NoNul s → length s ≤ n → strncpy n s ≡ s ++ replicate (n - length s) 0
unfolding strncpy
strncpy_of_le n [] v h = rw (strncpy-nil n) (ap (λ k. replicate k 0) (omega arith))
strncpy_of_le zero (c ∷ s) v h = absurd (omega arith)
strncpy_of_le (suc n) (zero ∷ s) v h = absurd (omega arith)
strncpy_of_le (suc n) (suc c ∷ s) v h =
    ap (λ r. suc c ∷ r)
      (strncpy_of_le n s v.1 (omega arith) ∙ ap (λ k. s ++ replicate k 0) (omega arith))

-- The string in front of a NUL is read back, with the memory behind it.
pub c_string-append : (s r : List ℕ) → NoNul s → c_string (s ++ 0 ∷ r) ≡ some (s, r)
unfolding c_string
c_string-append [] r v = refl
c_string-append (zero ∷ s) r v = absurd (omega arith)
c_string-append (suc c ∷ s) r v = rw (c_string-append s r v.1)

-- What `c_string` finds is the memory, taken apart at its first NUL.
abbrev pub Splits : List ℕ → Option (List ℕ × List ℕ) → Type 0
Splits m none = Unit {0}
Splits m (some (s, r)) = (m ≡ s ++ 0 ∷ r) × NoNul s

Splits-cons :
    (c : ℕ) (m : List ℕ) (o : Option (List ℕ × List ℕ))
    → c_string m ≡ o
    → Splits m o
    → Splits (suc c ∷ m) (c_string (suc c ∷ m))
unfolding c_string
Splits-cons c m none e h = rw e tt
Splits-cons c m (some (s, r)) e h = rw e (ap (λ t. suc c ∷ t) h.0, (omega arith, h.1))

pub c_string-Splits : (m : List ℕ) → Splits m (c_string m)
unfolding c_string
c_string-Splits [] = tt
c_string-Splits (zero ∷ m) = (refl, tt)
c_string-Splits (suc c ∷ m) = Splits-cons c m (c_string m) refl (c_string-Splits m)

pub length-c_string :
    (m s r : List ℕ) → c_string m ≡ some (s, r) → length s + suc (length r) ≡ length m
length-c_string m s r e =
    let h : Splits m (some (s, r)) = subst (Splits m) e (c_string-Splits m) in
    rw h.0 (sym (length-append s (0 ∷ r)))

-- A NUL further on ends the string.
pub c_string-drop :
    (n : ℕ) (b r : List ℕ) → drop n b ≡ 0 ∷ r → (t : List ℕ × List ℕ) × (c_string b ≡ some t)
unfolding c_string
c_string-drop zero b r h = rw h (([], r), refl)
c_string-drop (suc n) [] r h = absurd (omega (arith, ap length h))
c_string-drop (suc n) (zero ∷ b) r h = (([], b), refl)
c_string-drop (suc n) (suc c ∷ b) r h = let i = c_string-drop n b r h in rw i.1 (_, refl)
