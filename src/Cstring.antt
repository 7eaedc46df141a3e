-- ===== src/Cstring.antt =====
-- The functions of <string.h> and <stdlib.h> that the sources call on text. A `char *` argument is
-- the list of the characters before its NUL, unless it is said to be memory.
use lowlevel_academy.Prelude.{
  ℕ, zero, suc, ◌+◌, ◌-◌, ◌*◌, ◌/◌, ◌%◌, ◌^◌, Bool, true, false, ◌&&◌, ◌||◌, Option, none, some,
  List, [], ◌∷◌, ◌++◌, ltb, leb, ◌==◌, if◌then◌else◌, min, take, drop,
}
pub mod Copy
pub mod Tokens

-- The string that starts where the memory starts, with the memory behind its NUL. `none`: there is
-- no NUL, and a read of the string leaves the object.
unfoldable pub c_string : List ℕ → Option (List ℕ × List ℕ)
c_string [] = none
c_string (zero ∷ m) = some ([], m)
c_string (suc c ∷ m) = elim (c_string m) [ none ↦ none | some (s, r) ↦ some (suc c ∷ s, r) ]

-- The `n` bytes that `strncpy (_, s, n)` writes: the string up to its NUL, or to the end of the
-- list, and zeros behind it. With `n` characters or more there is no NUL.
unfoldable pub strncpy : ℕ → List ℕ → List ℕ
strncpy zero s = []
strncpy (suc n) [] = 0 ∷ strncpy n []
strncpy (suc n) (zero ∷ s) = 0 ∷ strncpy n []
strncpy (suc n) (suc c ∷ s) = suc c ∷ strncpy n s

-- `strtok (s, ",")` skips delimiters, takes a word, and puts a NUL over the delimiter behind it.
abbrev pub comma : ℕ
comma = b','

unfoldable pub delimiters : List ℕ → List ℕ
delimiters [] = []
delimiters (c ∷ s) = let more = delimiters s in if c == comma then c ∷ more else []

unfoldable pub skip_delimiters : List ℕ → List ℕ
skip_delimiters [] = []
skip_delimiters (c ∷ s) = let more = skip_delimiters s in if c == comma then more else c ∷ s

unfoldable pub word : List ℕ → List ℕ
word [] = []
word (c ∷ s) = let more = word s in if c == comma then [] else c ∷ more

unfoldable pub after_word : List ℕ → List ℕ
after_word [] = []
after_word (c ∷ s) = let more = after_word s in if c == comma then c ∷ s else more

-- `kept`: the bytes that were passed over, as they stand in memory afterwards. `rest`: the string
-- at which the next call with NULL goes on.
pub record Token : Type 0 where
  pub token : Option (List ℕ)
  pub kept : List ℕ
  pub rest : List ℕ

-- The word is in memory already; what follows it decides whether a NUL is written.
unfoldable pub cut_word : List ℕ → List ℕ → List ℕ → Token
cut_word before w [] = record { token = some w; kept = before ++ w; rest = [] }
cut_word before w (c ∷ s) = record { token = some w; kept = before ++ (w ++ 0 ∷ []); rest = s }

unfoldable pub take_word : List ℕ → List ℕ → Token
unfolding cut_word word after_word
take_word before [] = record { token = none; kept = before; rest = [] }
take_word before (c ∷ s) = cut_word before (word (c ∷ s)) (after_word (c ∷ s))

unfoldable pub strtok : List ℕ → Token
unfolding take_word delimiters skip_delimiters
strtok s = take_word (delimiters s) (skip_delimiters s)

-- `atoi`: `(int) strtol (s, NULL, 10)`, as the 32 bits of the `int`. `strtol` stops at the first
-- character that is no digit, and saturates at the bounds of a 64-bit `long`.
unfoldable pub is_space : ℕ → Bool
is_space c = c == 32 || (leb 9 c && leb c 13)

unfoldable pub is_digit : ℕ → Bool
is_digit c = leb b'0' c && leb c b'9'

unfoldable pub digits_value : ℕ → List ℕ → ℕ
unfolding is_digit
digits_value acc [] = acc
digits_value acc (c ∷ s) =
    let more = digits_value (acc * 10 + (c - b'0')) s in if is_digit c then more else acc

unfoldable pub skip_spaces : List ℕ → List ℕ
unfolding is_space
skip_spaces [] = []
skip_spaces (c ∷ s) = let more = skip_spaces s in if is_space c then more else c ∷ s

unfoldable pub positive32 : ℕ → ℕ
positive32 n = min n (2 ^ 63 - 1) % 2 ^ 32

unfoldable pub negative32 : ℕ → ℕ
negative32 n = (2 ^ 64 - min n (2 ^ 63)) % 2 ^ 32

unfoldable pub signed_value : List ℕ → ℕ
unfolding digits_value positive32 negative32
signed_value [] = 0
signed_value (c ∷ s) =
    if c == b'-'
    then negative32 (digits_value 0 s)
    else if c == b'+'
    then positive32 (digits_value 0 s)
    else positive32 (digits_value 0 (c ∷ s))

unfoldable pub atoi : List ℕ → ℕ
unfolding signed_value skip_spaces
atoi s = signed_value (skip_spaces s)
