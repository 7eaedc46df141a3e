-- ===== src/Server/Fsm.antt =====
-- The replies and `handle_client_fsm` of server_poll.c. What a handler sends to its client is the
-- list of the byte strings that it writes, in order; their results are not looked at.
use lowlevel_academy.Prelude.{
  ℕ, zero, suc, Bool, ◌&&◌, ◌||◌, not, List, [], ◌∷◌, ◌++◌, Option, none, some, take, drop, ◌==◌,
  if◌then◌else◌,
}
use lowlevel_academy.Host.{Endian, store32, htons, htonl}
use lowlevel_academy.Memory.{write_bytes}
use lowlevel_academy.Cstring.{c_string, strncpy}
use lowlevel_academy.Database.{Employee, Fd}
use lowlevel_academy.Database.Add.{status_success, status_error, Db, Added, add_employee}
use lowlevel_academy.Database.Save.{Saved, output_file}
use lowlevel_academy.Protocol.{
  proto_version, msg_error, msg_hello_req, msg_hello_resp, msg_employee_list_req,
  msg_employee_list_resp, msg_employee_add_req, msg_employee_add_resp, proto_header_size, get_type,
  set_type, get_length, set_length, get_proto, set_proto, header_hton, header_ntoh, proto_hton,
  proto_ntoh,
}
use lowlevel_academy.Server.{State, state_hello, state_msg, ClientState}
pub mod Replies
pub mod Hello
pub mod Steps
pub mod Total
pub mod Listing
pub mod Adding
pub mod Tail

-- A reply: the buffer afterwards, and what was written to the client.
pub record Reply : Type 0 where
  pub buffer : List ℕ
  pub sent : List (List ℕ)

unfoldable pub fsm_reply_hello : Endian → List ℕ → Reply
fsm_reply_hello e buf =
    let b = proto_hton e (
      header_hton e (set_proto e proto_version (set_length e 1 (set_type e msg_hello_resp buf)))) in
    record { buffer = b; sent = take 10 b ∷ [] }

-- `fsm_reply_hello_error`, `fsm_reply_add_error` and `fsm_reply_add`: a header alone.
unfoldable pub reply_header : Endian → ℕ → List ℕ → Reply
reply_header e type buf =
    let b = header_hton e (set_length e 0 (set_type e type buf)) in
    record { buffer = b; sent = take proto_header_size b ∷ [] }

unfoldable pub fsm_reply_hello_error : Endian → List ℕ → Reply
fsm_reply_hello_error e buf = reply_header e msg_error buf

unfoldable pub fsm_reply_add : Endian → List ℕ → Reply
fsm_reply_add e buf = reply_header e msg_employee_add_resp buf

unfoldable pub fsm_reply_add_error : Endian → List ℕ → Reply
fsm_reply_add_error e buf = reply_header e msg_error buf

-- `dbproto_employee_list_resp` in the buffer behind the header: two arrays and a number.
unfoldable pub put_employee : Endian → Employee → List ℕ → List ℕ
put_employee e x buf =
    write_bytes 520 (store32 e (htonl e x.hours))
      (write_bytes 264 (strncpy 256 x.address) (write_bytes 8 (strncpy 256 x.name) buf))

unfoldable pub add_sent : List ℕ → Option Reply → Option Reply
add_sent bs none = none
add_sent bs (some r) = some (record r { sent = bs ∷ r.sent })

-- The loop over `employees[i]`, for the rounds left. `none` is a read behind the array.
unfoldable pub send_employees : Endian → ℕ → List Employee → List ℕ → Option Reply
unfolding add_sent
send_employees e zero es buf = some (record { buffer = buf; sent = [] })
send_employees e (suc n) [] buf = none
send_employees e (suc n) (x ∷ es) buf =
    add_sent (take 516 (drop 8 (put_employee e x buf)))
      (send_employees e n es (put_employee e x buf))

unfoldable pub fsm_reply_list : Endian → Db → List ℕ → Option Reply
fsm_reply_list e db buf =
    let b =
      set_length e (htons e db.header.count) (set_type e (htonl e msg_employee_list_resp) buf) in
    add_sent (take proto_header_size b) (send_employees e db.header.count db.employees b)

-- What a call of the handler leaves, and what it has sent to the client.
pub record Handled : Type 0 where
  pub db : Db
  pub disk : Fd
  pub client : ClientState
  pub sent : List (List ℕ)

-- The rest of a branch: the reply, in the client's state after the call.
unfoldable pub answer : Db → Fd → ClientState → State → Reply → Handled
answer db disk c s r = record {
  db = db;
  disk = disk;
  client = record c { state = s; buffer = r.buffer };
  sent = r.sent;
}

unfoldable pub after_save : ClientState → Reply → Option Saved → Option Handled
unfolding answer
after_save c r none = none
after_save c r (some s) = some (answer s.db s.fd c c.state r)

-- After `add_employee`, with the buffer whose text `strtok` has cut.
unfoldable pub after_add : Endian → Fd → ClientState → List ℕ → Added → Option Handled
unfolding after_save answer
after_add e disk c buf r = elim r.status [
  | status_error ↦ some (answer r.db disk c c.state (fsm_reply_add_error e buf))
  | status_success ↦ after_save c (fsm_reply_add e buf) (output_file e disk r.db)
]

unfoldable pub add_to_buffer :
    Endian → Fd → ClientState → List ℕ → List ℕ → Option Added → Option Handled
unfolding after_add
add_to_buffer e disk c buf behind none = none
add_to_buffer e disk c buf behind (some r) =
    after_add e disk c (take 8 buf ++ (r.text ++ 0 ∷ behind)) r

-- The data are printed and handed on as a string: `none` if no NUL ends it within the buffer.
unfoldable pub add_text :
    Endian
    → (reallocated : Bool) → Db
    → Fd
    → ClientState
    → List ℕ
    → Option (List ℕ × List ℕ)
    → Option Handled
unfolding add_to_buffer
add_text e reallocated db disk c buf none = none
add_text e reallocated db disk c buf (some (text, behind)) =
    add_to_buffer e disk c buf behind (add_employee reallocated db text)

unfoldable pub handle_add :
    Endian → (reallocated : Bool) → Db → Fd → ClientState → List ℕ → Option Handled
unfolding add_text
handle_add e reallocated db disk c buf =
    add_text e reallocated db disk c buf (c_string (drop 8 buf))

unfoldable pub finish_list : Db → Fd → ClientState → Option Reply → Option Handled
unfolding answer
finish_list db disk c none = none
finish_list db disk c (some r) = some (answer db disk c c.state r)

unfoldable pub handle_hello : Endian → Db → Fd → ClientState → List ℕ → Handled
unfolding answer
handle_hello e db disk c buf =
    if not (get_type e buf == msg_hello_req) || not (get_length e buf == 1)
    then answer db disk c c.state (fsm_reply_hello_error e buf)
    else if get_proto e (proto_ntoh e buf) == proto_version
    then answer db disk c state_msg (fsm_reply_hello e (proto_ntoh e buf))
    else answer db disk c c.state (fsm_reply_hello_error e (proto_ntoh e buf))

unfoldable pub handle_msg :
    Endian → (reallocated : Bool) → Db → Fd → ClientState → List ℕ → Option Handled
unfolding finish_list answer
handle_msg e reallocated db disk c buf =
    if (get_type e buf == msg_employee_add_req) && (get_length e buf == 1)
    then handle_add e reallocated db disk c buf
    else if get_type e buf == msg_employee_list_req
    then finish_list db disk c (fsm_reply_list e db buf)
    else some (answer db disk c c.state (record { buffer = buf; sent = [] }))

unfoldable pub dispatch :
    Endian → (reallocated : Bool) → Db → Fd → ClientState → List ℕ → State → Option Handled
unfolding answer
dispatch e reallocated db disk c buf state_hello = some (handle_hello e db disk c buf)
dispatch e reallocated db disk c buf state_msg = handle_msg e reallocated db disk c buf
dispatch e reallocated db disk c buf _ =
    some (answer db disk c c.state (record { buffer = buf; sent = [] }))

-- `none` is a fault of the C program: a read or a write outside an object.
unfoldable pub handle_client_fsm :
    Endian → (reallocated : Bool) → Db → Fd → ClientState → Option Handled
unfolding dispatch
handle_client_fsm e reallocated db disk c =
    dispatch e reallocated db disk c (header_ntoh e c.buffer) c.state
