-- ===== src/Exercises/Structures/Laws.antt =====
-- What the loops print, and the packed struct.
use lowlevel_academy.Prelude.{
  subst, ℕ, zero, suc, ◌+◌, ◌%◌, ◌/◌, ◌≡◌, List, [], ◌∷◌, ◌++◌, some, length, drop, replicate,
  false, refl, arith, ap, length-append, ◌∙◌,
}
use lowlevel_academy.Host.{Endian, little, big, store32}
use lowlevel_academy.Host.Laws.{length-store32}
use lowlevel_academy.Memory.{write_bytes-drop}
use lowlevel_academy.Cstring.{c_string}
use lowlevel_academy.Cstring.Copy.{c_string-append}
use lowlevel_academy.Exercises.Structures.{
  Employee, steve, filled, Key, number, text, Line, line, id_line, with_text, name_line, cons_line,
  fill, id_lines, name_lines, max_employees, image, bool_byte,
}

abbrev pub zero_line : Key → Line
zero_line k = record { key = k; is_manager = false; income = 0 }

abbrev pub id_lines_from : (i n : ℕ) → List Line
id_lines_from i zero = []
id_lines_from i (suc n) = zero_line (number i) ∷ id_lines_from (i + 1) n

fill-id_line :
    (i : ℕ) (es : List Employee)
    → fill id_line i (length es) es ≡ some (id_lines_from i (length es))
unfolding fill id_line line filled
fill-id_line i [] = refl
fill-id_line i (x ∷ es) = rw (fill-id_line (i + 1) es) refl

name_line-filled : (i : ℕ) (x : Employee) → name_line (filled i x) ≡ some (zero_line (text steve))
unfolding name_line filled with_text line
name_line-filled i x =
    let written =
      ap c_string (write_bytes-drop (steve ++ 0 ∷ []) x.first_name)
      ∙ c_string-append steve (drop 6 x.first_name) (omega arith) in
    rw written refl

fill-name_line :
    (i : ℕ) (es : List Employee)
    → fill name_line i (length es) es ≡ some (replicate (length es) (zero_line (text steve)))
unfolding fill cons_line
fill-name_line i [] = refl
fill-name_line i (x ∷ es) = rw (name_line-filled i x, fill-name_line (i + 1) es) refl

-- Whatever the array of 1000 employees holds at first: structures.c prints the ids from 0 on, in
-- order, and struct_modifiers.c the name "Steve" a thousand times, each with no income and no
-- manager.
pub lines_lem :
    (es : List Employee)
    → length es ≡ max_employees
    → (id_lines es ≡ some (id_lines_from 0 max_employees))
      × (name_lines es ≡ some (replicate max_employees (zero_line (text steve))))
unfolding id_lines name_lines
lines_lem es h = (
  subst (λ n. fill id_line 0 n es ≡ some (id_lines_from 0 n)) h (fill-id_line 0 es),
  subst (λ n. fill name_line 0 n es ≡ some (replicate n (zero_line (text steve)))) h
      (fill-name_line 0 es),
)

length-fields :
    (a b c d : List ℕ) (y : ℕ)
    → length (a ++ b ++ c ++ d ++ y ∷ []) ≡ length a + length b + length c + length d + 1
length-fields a b c d y = omega (
  arith,
  length-append a b,
  length-append (a ++ b) c,
  length-append (a ++ b ++ c) d,
  length-append (a ++ b ++ c ++ d) (y ∷ []),
)

abbrev first : List ℕ → ℕ
first [] = 0
first (b ∷ bs) = b

-- The packed struct takes 137 bytes on either host. Hosts that differ in byte order agree on them
-- only if the first byte of the id is its last byte.
pub image_lem :
    (e : Endian) (x : Employee)
    → length x.first_name ≡ 64
    → length x.last_name ≡ 64
    → (length (image e x) ≡ 137)
      × (image little x ≡ image big x → x.id % 256 ≡ x.id / 16777216 % 256)
unfolding image store32
image_lem e x h k =
    let size =
      length-fields (store32 e x.id) x.first_name x.last_name (store32 e x.income)
        (bool_byte x.is_manager) in
    (size ∙ omega (arith, length-store32 e x.id, length-store32 e x.income, h, k), λ q. ap first q)
