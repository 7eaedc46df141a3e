-- ===== src/Client.antt =====
-- src/client/main.c of 02-networking-code/05_course_project: the three requests. What the server
-- answers is an argument: the bytes that each `read` puts into the buffer, none if it fails.
pub mod Handshake
pub mod Request
use lowlevel_academy.Prelude.{
  ℕ, zero, suc, Bool, true, false, ◌||◌, not, List, [], ◌∷◌, Option, none, some, take, drop,
  replicate, ◌==◌, if◌then◌else◌,
}
use lowlevel_academy.Host.{Endian, load32, store32, ntohs, ntohl}
use lowlevel_academy.Memory.{write_bytes}
use lowlevel_academy.Cstring.{c_string, strncpy}
use lowlevel_academy.Database.Add.{Status, status_success, status_error}
use lowlevel_academy.Protocol.{
  proto_version, buff_size, msg_error, msg_hello_req, msg_employee_list_req, msg_employee_list_resp,
  msg_employee_add_req, proto_header_size, get_type, set_type, get_length, set_length, get_proto,
  set_proto, header_hton, header_ntoh, proto_hton,
}
pub mod Listing
pub mod Run

unfoldable pub zeroed : List ℕ
zeroed = replicate buff_size 0

-- What a request sends, and what it returns for what it reads.
unfoldable pub hello_buffer : Endian → List ℕ
unfolding zeroed
hello_buffer e =
    proto_hton e
      (header_hton e (set_proto e proto_version (set_length e 1 (set_type e msg_hello_req zeroed))))

unfoldable pub hello_sent : Endian → List ℕ
hello_sent e = take 10 (hello_buffer e)

-- `some v`: STATUS_SUCCESS, with the version that is printed. `none`: STATUS_ERROR.
unfoldable pub hello_read : Endian → List ℕ → Option ℕ
hello_read e buf =
    if get_type e (header_ntoh e buf) == msg_error
    then none
    else some (ntohs e (get_proto e (header_ntoh e buf)))

unfoldable pub send_hello : Endian → (answer : List ℕ) → List ℕ × Option ℕ
unfolding hello_read
send_hello e answer = (hello_sent e, hello_read e (write_bytes 0 answer (hello_buffer e)))

unfoldable pub employee_buffer : Endian → List ℕ → List ℕ
unfolding zeroed
employee_buffer e text =
    header_hton e
      (write_bytes 8 (strncpy 1024 text) (set_length e 1 (set_type e msg_employee_add_req zeroed)))

unfoldable pub employee_sent : Endian → List ℕ → List ℕ
employee_sent e text = take 1032 (employee_buffer e text)

unfoldable pub employee_read : Endian → List ℕ → Status
employee_read e buf =
    if get_type e (header_ntoh e buf) == msg_error then status_error else status_success

unfoldable pub send_employee : Endian → List ℕ → (answer : List ℕ) → List ℕ × Status
unfolding employee_read
send_employee e text answer =
    (employee_sent e text, employee_read e (write_bytes 0 answer (employee_buffer e text)))

-- A line that is printed for an employee. Each text runs to its NUL: `none` if the buffer has none.
pub record Row : Type 0 where
  pub name : Option (List ℕ)
  pub address : Option (List ℕ)
  pub hours : ℕ

unfoldable pub text_at : Option (List ℕ × List ℕ) → Option (List ℕ)
text_at none = none
text_at (some (text, behind)) = some text

unfoldable pub print_row : Endian → List ℕ → Row
unfolding text_at
print_row e buf = record {
  name = text_at (c_string (drop 8 buf));
  address = text_at (c_string (drop 264 buf));
  hours = load32 e (drop 520 buf);
}

unfoldable pub hours_ntoh : Endian → List ℕ → List ℕ
hours_ntoh e buf = write_bytes 520 (store32 e (ntohl e (load32 e (drop 520 buf)))) buf

-- The next read takes the next chunk, or nothing.
unfoldable pub next_chunk : List (List ℕ) → List ℕ
next_chunk [] = []
next_chunk (c ∷ cs) = c

unfoldable pub other_chunks : List (List ℕ) → List (List ℕ)
other_chunks [] = []
other_chunks (c ∷ cs) = cs

-- The loop, for the rounds left.
unfoldable pub read_rows : Endian → ℕ → List (List ℕ) → List ℕ → List Row
read_rows e zero chunks buf = []
read_rows e (suc n) chunks buf =
    let b = hours_ntoh e (write_bytes 8 (next_chunk chunks) buf) in
    print_row e b ∷ read_rows e n (other_chunks chunks) b

unfoldable pub list_buffer : Endian → List ℕ
unfolding zeroed
list_buffer e = header_hton e (set_length e 0 (set_type e msg_employee_list_req zeroed))

unfoldable pub list_sent : Endian → List ℕ
list_sent e = take proto_header_size (list_buffer e)

unfoldable pub list_read : Endian → List (List ℕ) → List ℕ → Option (List Row)
list_read e chunks buf =
    if (get_type e buf == msg_error) || not (get_type e buf == msg_employee_list_resp)
    then none
    else some (read_rows e (get_length e buf) chunks buf)

-- `some rows`: STATUS_SUCCESS, with the lines printed. `none`: STATUS_ERROR.
unfoldable pub list_employees : Endian → List (List ℕ) → List ℕ × Option (List Row)
list_employees e chunks = (
  list_sent e,
  list_read e (other_chunks chunks)
      (header_ntoh e (write_bytes 0 (next_chunk chunks) (list_buffer e))),
)
