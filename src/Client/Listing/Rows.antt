-- ===== src/Client/Listing/Rows.antt =====
-- The loop of `list_employees` over the records that the server sends.
use lowlevel_academy.Prelude.{
  ℕ, zero, suc, ◌≡◌, refl, ap, sym, ◌∙◌, List, [], ◌∷◌, ◌++◌, map, some, drop, length, arith,
  length-append, append_assoc, drop-append,
}
use lowlevel_academy.Host.{Endian, big, store32}
use lowlevel_academy.Host.Laws.{ntohl-load32, load32-store32, length-store32}
use lowlevel_academy.Memory.{write_bytes, write_bytes-middle}
use lowlevel_academy.Cstring.{strncpy}
use lowlevel_academy.Cstring.Copy.{length-strncpy, strncpy_idem}
use lowlevel_academy.Database.Format.{employee_image}
use lowlevel_academy.Database.Person.{
  Person, IsPerson, ArePersons, recorded, c_string-strncpy_append,
}
use lowlevel_academy.Server.Fsm.Listing.{sent_employee, length-sent_employee}
use lowlevel_academy.Client.{Row, print_row, hours_ntoh, next_chunk, other_chunks, read_rows}

-- A buffer with a record behind eight bytes, and its parts.
module _ (h n a z r : List ℕ) (hh : length h ≡ 8) (hn : length n ≡ 256) (ha : length a ≡ 256) where
  at_name : drop 8 (h ++ (n ++ (a ++ (z ++ r)))) ≡ n ++ (a ++ (z ++ r))
  at_name = drop-append 8 h (n ++ (a ++ (z ++ r))) hh

  at_address : drop 264 (h ++ (n ++ (a ++ (z ++ r)))) ≡ a ++ (z ++ r)
  at_address =
      ap (drop 264) (sym (append_assoc h n (a ++ (z ++ r))))
      ∙ drop-append 264 (h ++ n) (a ++ (z ++ r)) (omega (arith, length-append h n))

  front : h ++ (n ++ (a ++ (z ++ r))) ≡ (h ++ (n ++ a)) ++ (z ++ r)
  front = simp append_assoc

  front_size : length (h ++ (n ++ a)) ≡ 520
  front_size = omega (arith, length-append h (n ++ a), length-append n a)

  at_hours : drop 520 (h ++ (n ++ (a ++ (z ++ r)))) ≡ z ++ r
  at_hours = ap (drop 520) front ∙ drop-append 520 (h ++ (n ++ a)) (z ++ r) front_size

  write_hours :
      (y : List ℕ)
      → length y ≡ length z
      → write_bytes 520 y (h ++ (n ++ (a ++ (z ++ r)))) ≡ h ++ (n ++ (a ++ (y ++ r)))
  write_hours y k =
      ap (write_bytes 520 y) front
      ∙ write_bytes-middle 520 (h ++ (n ++ a)) y z r front_size k
      ∙ simp append_assoc

-- A round of the loop: the record is read over the old one, and its hours are converted.
module _ (e : Endian) (x : Person) (v : IsPerson x) (h r : List ℕ) (hh : length h ≡ 8) where
  abbrev name_bytes : List ℕ
  name_bytes = strncpy 256 x.name

  abbrev address_bytes : List ℕ
  address_bytes = strncpy 256 x.address

  hours_ntoh-record :
      (o : List ℕ)
      → length o ≡ 516
      → hours_ntoh e (write_bytes 8 (sent_employee (recorded x)) (h ++ (o ++ r)))
        ≡ h ++ (name_bytes ++ (address_bytes ++ (store32 e x.hours ++ r)))
  unfolding hours_ntoh employee_image
  hours_ntoh-record o k =
      let sent =
        write_bytes-middle 8 h (sent_employee (recorded x)) o r hh
          (length-sent_employee (recorded x) ∙ sym k) in
      let parts : h ++ (sent_employee (recorded x) ++ r)
          ≡ h ++ (name_bytes ++ (address_bytes ++ (store32 big x.hours ++ r))) =
        simp (strncpy_idem, append_assoc) in
      rw
        (
          sent,
          parts,
          at_hours h name_bytes address_bytes (store32 big x.hours) r hh (length-strncpy 256 x.name)
              (length-strncpy 256 x.address),
          ntohl-load32 e x.hours r v.hours_fit,
        )
        (write_hours h name_bytes address_bytes (store32 big x.hours) r hh
          (length-strncpy 256 x.name) (length-strncpy 256 x.address) (store32 e x.hours)
          (length-store32 e x.hours ∙ sym (length-store32 big x.hours)))

  print_row-record :
      print_row e (h ++ (name_bytes ++ (address_bytes ++ (store32 e x.hours ++ r))))
      ≡ record { name = some x.name; address = some x.address; hours = x.hours }
  unfolding print_row
  print_row-record =
      rw
        (
          at_name h name_bytes address_bytes (store32 e x.hours) r hh (length-strncpy 256 x.name)
              (length-strncpy 256 x.address),
          at_address h name_bytes address_bytes (store32 e x.hours) r hh (length-strncpy 256 x.name)
              (length-strncpy 256 x.address),
          at_hours h name_bytes address_bytes (store32 e x.hours) r hh (length-strncpy 256 x.name)
              (length-strncpy 256 x.address),
          c_string-strncpy_append 256 x.name _ v.name_clean v.name_short,
          c_string-strncpy_append 256 x.address _ v.address_clean v.address_short,
          load32-store32 e x.hours r v.hours_fit,
        )
        refl

-- The rows that are printed for persons.
abbrev pub row : Person → Row
row x = record { name = some x.name; address = some x.address; hours = x.hours }

pub read_rows-records :
    (e : Endian) (n : ℕ) (xs : List Person) (h o r : List ℕ)
    → n ≡ length xs
    → ArePersons xs
    → length h ≡ 8
    → length o ≡ 516
    → read_rows e n (map sent_employee (map recorded xs)) (h ++ (o ++ r)) ≡ map row xs
unfolding read_rows next_chunk other_chunks
read_rows-records e zero [] h o r p v hh ho = refl
read_rows-records e zero (x ∷ xs) h o r p v hh ho = absurd (omega arith)
read_rows-records e (suc n) [] h o r p v hh ho = absurd (omega arith)
read_rows-records e (suc n) (x ∷ xs) h o r p v hh ho =
    let z : List ℕ = strncpy 256 x.name ++ (strncpy 256 x.address ++ store32 e x.hours) in
    let flat : strncpy 256 x.name ++ (strncpy 256 x.address ++ (store32 e x.hours ++ r)) ≡ z ++ r =
      sym (
        append_assoc (strncpy 256 x.name) (strncpy 256 x.address ++ store32 e x.hours) r
        ∙ ap (λ t. strncpy 256 x.name ++ t)
            (append_assoc (strncpy 256 x.address) (store32 e x.hours) r)) in
    let size : length z ≡ 516 = omega (
      arith,
      length-append (strncpy 256 x.name) (strncpy 256 x.address ++ store32 e x.hours),
      length-append (strncpy 256 x.address) (store32 e x.hours),
      length-strncpy 256 x.name,
      length-strncpy 256 x.address,
      length-store32 e x.hours,
    ) in
    rw (hours_ntoh-record e x v.0 h r hh o ho, print_row-record e x v.0 h r hh)
      (ap (λ t. row x ∷ read_rows e n (map sent_employee (map recorded xs)) (h ++ t)) flat
        ∙ ap (λ t. row x ∷ t) (read_rows-records e n xs h z r (omega arith) v.1 hh size))
