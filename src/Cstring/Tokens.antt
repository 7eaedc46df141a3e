-- ===== src/Cstring/Tokens.antt =====
-- Laws of `strtok (_, ",")`.
use lowlevel_academy.Prelude.{
  ℕ, ◌+◌, ◌≡◌, ◌≢◌, refl, List, [], ◌∷◌, ◌++◌, some, arith, length, length-append,
}
use lowlevel_academy.Cstring.{
  comma, delimiters, skip_delimiters, word, after_word, cut_word, take_word, strtok,
}

-- No character is a delimiter.
abbrev pub NoComma : List ℕ → Type 0
NoComma [] = Unit {0}
NoComma (c ∷ s) = (c ≢ comma) × NoComma s

delimiters-skip : (s : List ℕ) → length (delimiters s) + length (skip_delimiters s) ≡ length s
unfolding delimiters skip_delimiters
delimiters-skip [] = refl
delimiters-skip (c ∷ s) = ground (arith, delimiters-skip s)

word-after : (s : List ℕ) → length (word s) + length (after_word s) ≡ length s
unfolding word after_word
word-after [] = refl
word-after (c ∷ s) = ground (arith, word-after s)

length-cut_word :
    (b w s : List ℕ)
    → length (cut_word b w s).kept + length (cut_word b w s).rest ≡ length b + (length w + length s)
unfolding cut_word
length-cut_word b w [] = omega (arith, length-append b w)
length-cut_word b w (c ∷ s) = omega (arith, length-append b (w ++ 0 ∷ []), length-append w (0 ∷ []))

length-take_word :
    (b s : List ℕ) → length (take_word b s).kept + length (take_word b s).rest ≡ length b + length s
unfolding take_word
length-take_word b [] = refl
length-take_word b (c ∷ s) =
    omega (arith, length-cut_word b (word (c ∷ s)) (after_word (c ∷ s)), word-after (c ∷ s))

-- A call keeps the length of the string that it works on: it only overwrites.
pub length-strtok : (s : List ℕ) → length (strtok s).kept + length (strtok s).rest ≡ length s
unfolding strtok
length-strtok s =
    omega (arith, length-take_word (delimiters s) (skip_delimiters s), delimiters-skip s)

module _ (r : List ℕ) where
  word-append : (w : List ℕ) → NoComma w → word (w ++ comma ∷ r) ≡ w
  unfolding word
  word-append [] v = refl
  word-append (c ∷ w) v = ground (arith, word-append w v.1)

  after_word-append : (w : List ℕ) → NoComma w → after_word (w ++ comma ∷ r) ≡ comma ∷ r
  unfolding after_word
  after_word-append [] v = refl
  after_word-append (c ∷ w) v = ground (arith, after_word-append w v.1)

word_whole : (w : List ℕ) → NoComma w → word w ≡ w
unfolding word
word_whole [] v = refl
word_whole (c ∷ w) v = ground (arith, word_whole w v.1)

after_word_whole : (w : List ℕ) → NoComma w → after_word w ≡ []
unfolding after_word
after_word_whole [] v = refl
after_word_whole (c ∷ w) v = ground (arith, after_word_whole w v.1)

-- A word in front of a delimiter is taken, and the next call goes on behind the delimiter.
pub strtok-word :
    (c : ℕ) (w r : List ℕ)
    → NoComma (c ∷ w)
    → strtok (c ∷ w ++ comma ∷ r)
      ≡ record { token = some (c ∷ w); kept = c ∷ w ++ 0 ∷ []; rest = r }
unfolding strtok
strtok-word c w r v = ground (arith, word-append r (c ∷ w) v, after_word-append r (c ∷ w) v)

-- The last word is taken whole.
pub strtok_last :
    (c : ℕ) (w : List ℕ)
    → NoComma (c ∷ w)
    → strtok (c ∷ w) ≡ record { token = some (c ∷ w); kept = c ∷ w; rest = [] }
unfolding strtok
strtok_last c w v = ground (arith, word_whole (c ∷ w) v, after_word_whole (c ∷ w) v)
