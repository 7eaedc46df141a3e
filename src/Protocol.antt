-- ===== src/Protocol.antt =====
-- include/common.h: message types, the message header overlaid on a buffer, and the fields that the
-- server and the client read and write through `dbproto_header_t *`.
use lowlevel_academy.Prelude.{ℕ, List, drop}
use lowlevel_academy.Host.{Endian, store16, store32, load16, load32, htons, htonl, ntohs, ntohl}
use lowlevel_academy.Memory.{write_bytes}
pub mod Frame

abbrev pub proto_version : ℕ
proto_version = 100

abbrev pub buff_size : ℕ
buff_size = 4096

-- `dbproto_type_e`, an `unsigned int`
abbrev pub msg_error : ℕ
msg_error = 0

abbrev pub msg_hello_req : ℕ
msg_hello_req = 1

abbrev pub msg_hello_resp : ℕ
msg_hello_resp = 2

abbrev pub msg_employee_list_req : ℕ
msg_employee_list_req = 3

abbrev pub msg_employee_list_resp : ℕ
msg_employee_list_resp = 4

abbrev pub msg_employee_add_req : ℕ
msg_employee_add_req = 5

abbrev pub msg_employee_add_resp : ℕ
msg_employee_add_resp = 6

-- `sizeof (dbproto_header_t)`: four bytes of type, two of length and two of padding.
abbrev pub proto_header_size : ℕ
proto_header_size = 8

-- The fields of the struct at the start of a buffer, and of the message behind it.
unfoldable pub get_type : Endian → List ℕ → ℕ
get_type e buf = load32 e buf

unfoldable pub set_type : Endian → ℕ → List ℕ → List ℕ
set_type e x buf = write_bytes 0 (store32 e x) buf

unfoldable pub get_length : Endian → List ℕ → ℕ
get_length e buf = load16 e (drop 4 buf)

unfoldable pub set_length : Endian → ℕ → List ℕ → List ℕ
set_length e x buf = write_bytes 4 (store16 e x) buf

unfoldable pub get_proto : Endian → List ℕ → ℕ
get_proto e buf = load16 e (drop 8 buf)

unfoldable pub set_proto : Endian → ℕ → List ℕ → List ℕ
set_proto e x buf = write_bytes 8 (store16 e x) buf

-- `proto_header->type = htonl (proto_header->type)` and its like.
unfoldable pub header_hton : Endian → List ℕ → List ℕ
header_hton e buf =
    let b = set_type e (htonl e (get_type e buf)) buf in set_length e (htons e (get_length e b)) b

unfoldable pub header_ntoh : Endian → List ℕ → List ℕ
header_ntoh e buf =
    let b = set_type e (ntohl e (get_type e buf)) buf in set_length e (ntohs e (get_length e b)) b

unfoldable pub proto_hton : Endian → List ℕ → List ℕ
proto_hton e buf = set_proto e (htons e (get_proto e buf)) buf

unfoldable pub proto_ntoh : Endian → List ℕ → List ℕ
proto_ntoh e buf = set_proto e (ntohs e (get_proto e buf)) buf
