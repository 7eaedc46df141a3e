-- ===== src/Server/Fsm/Steps.antt =====
-- Which states `handle_client_fsm` moves between, and in which it may touch the database.
use lowlevel_academy.Prelude.{
  ℕ, ◌≡◌, ◌≢◌, ◌⊎◌, inl, inr, refl, Bool, ◌&&◌, List, Option, none, some, ◌==◌, drop, arith,
  Bool-cases,
}
use lowlevel_academy.Host.{Endian}
use lowlevel_academy.Cstring.{c_string}
use lowlevel_academy.Database.{Fd}
use lowlevel_academy.Database.Add.{Status, status_success, status_error, Db, Added, add_employee}
use lowlevel_academy.Database.Save.{Saved, output_file}
use lowlevel_academy.Protocol.{get_type, get_length, header_ntoh}
use lowlevel_academy.Server.{State, state_hello, state_msg, ClientState}
use lowlevel_academy.Server.Fsm.{
  Reply, Handled, after_save, after_add, add_to_buffer, add_text, handle_add, finish_list,
  handle_hello, handle_msg, dispatch, handle_client_fsm, fsm_reply_add, fsm_reply_list,
}

-- The client's descriptor is never changed. Its state stays, or goes from hello to message.
abbrev pub Moves : ClientState → Handled → Type 0
Moves c r =
    (r.client.fd ≡ c.fd)
    × ((r.client.state ≡ c.state) ⊎ ((c.state ≡ state_hello) × (r.client.state ≡ state_msg)))

-- The database and the file are as they were.
abbrev pub Untouched : Db → Fd → Handled → Type 0
Untouched db disk r = (r.db ≡ db) × (r.disk ≡ disk)

-- What is known of the result of a branch; nothing of a fault.
abbrev AllMoves : ClientState → Option Handled → Type 0
AllMoves c none = Unit {0}
AllMoves c (some r) = (r.client.fd ≡ c.fd) × (r.client.state ≡ c.state)

after_save-Moves : (c : ClientState) (r : Reply) (o : Option Saved) → AllMoves c (after_save c r o)
unfolding after_save
after_save-Moves c r none = tt
after_save-Moves c r (some s) = (refl, refl)

after_add-Moves :
    (e : Endian) (disk : Fd) (c : ClientState) (buf : List ℕ) (r : Added) (s : Status)
    → r.status ≡ s
    → AllMoves c (after_add e disk c buf r)
unfolding after_add
after_add-Moves e disk c buf r status_error p = rw p (refl, refl)
after_add-Moves e disk c buf r status_success p =
    rw p (after_save-Moves c (fsm_reply_add e buf) (output_file e disk r.db))

add_to_buffer-Moves :
    (e : Endian) (disk : Fd) (c : ClientState) (buf behind : List ℕ) (o : Option Added)
    → AllMoves c (add_to_buffer e disk c buf behind o)
unfolding add_to_buffer
add_to_buffer-Moves e disk c buf behind none = tt
add_to_buffer-Moves e disk c buf behind (some r) = after_add-Moves e disk c _ r r.status refl

add_text-Moves :
    (e : Endian) (b : Bool) (db : Db) (disk : Fd) (c : ClientState) (buf : List ℕ)
    (o : Option (List ℕ × List ℕ))
    → AllMoves c (add_text e b db disk c buf o)
unfolding add_text
add_text-Moves e b db disk c buf none = tt
add_text-Moves e b db disk c buf (some t) =
    add_to_buffer-Moves e disk c buf t.1 (add_employee b db t.0)

handle_add-Moves :
    (e : Endian) (b : Bool) (db : Db) (disk : Fd) (c : ClientState) (buf : List ℕ)
    → AllMoves c (handle_add e b db disk c buf)
unfolding handle_add
handle_add-Moves e b db disk c buf = add_text-Moves e b db disk c buf (c_string (drop 8 buf))

finish_list-Moves :
    (db : Db) (disk : Fd) (c : ClientState) (o : Option Reply)
    → AllMoves c (finish_list db disk c o)
unfolding finish_list
finish_list-Moves db disk c none = tt
finish_list-Moves db disk c (some r) = (refl, refl)

handle_msg-Moves :
    (e : Endian) (b : Bool) (db : Db) (disk : Fd) (c : ClientState) (buf : List ℕ)
    → AllMoves c (handle_msg e b db disk c buf)
unfolding handle_msg
handle_msg-Moves e b db disk c buf =
    elim (Bool-cases ((get_type e buf == 5) && (get_length e buf == 1))) [
      | inl p ↦ rw p (handle_add-Moves e b db disk c buf)
      | inr p ↦ elim (Bool-cases (get_type e buf == 3)) [
        | inl q ↦ rw (p, q) (finish_list-Moves db disk c (fsm_reply_list e db buf))
        | inr q ↦ rw (p, q) (refl, refl)
      ]
    ]

handle_hello-Moves :
    (e : Endian) (db : Db) (disk : Fd) (c : ClientState) (buf : List ℕ)
    → c.state ≡ state_hello
    → Moves c (handle_hello e db disk c buf) × Untouched db disk (handle_hello e db disk c buf)
unfolding handle_hello
handle_hello-Moves e db disk c buf h = ground arith

-- In every state but these two the message is ignored.
dispatch-Moves :
    (e : Endian) (b : Bool) (db : Db) (disk : Fd) (c : ClientState) (buf : List ℕ) (s : State)
    → c.state ≡ s
    → (r : Handled) → dispatch e b db disk c buf s ≡ some r
    → Moves c r
unfolding dispatch
dispatch-Moves e b db disk c buf state_hello h r q =
    ground (arith, handle_hello-Moves e db disk c buf h)
dispatch-Moves e b db disk c buf state_msg h r q =
    let m : AllMoves c (some r) = rw q at (handle_msg-Moves e b db disk c buf) in (m.0, inl m.1)
dispatch-Moves e b db disk c buf _ h r q = ground arith

-- Whatever a client sends.
pub handle_client_fsm-Moves :
    (e : Endian) (b : Bool) (db : Db) (disk : Fd) (c : ClientState) (r : Handled)
    → handle_client_fsm e b db disk c ≡ some r
    → Moves c r
unfolding handle_client_fsm
handle_client_fsm-Moves e b db disk c r q =
    dispatch-Moves e b db disk c (header_ntoh e c.buffer) c.state refl r q

dispatch-Untouched :
    (e : Endian) (b : Bool) (db : Db) (disk : Fd) (c : ClientState) (buf : List ℕ) (s : State)
    → c.state ≡ s
    → s ≢ state_msg
    → (r : Handled) × (dispatch e b db disk c buf s ≡ some r) × Untouched db disk r
unfolding dispatch
dispatch-Untouched e b db disk c buf state_hello h ne =
    (handle_hello e db disk c buf, refl, (handle_hello-Moves e db disk c buf h).1)
dispatch-Untouched e b db disk c buf state_msg h ne = absurd (ne refl)
dispatch-Untouched e b db disk c buf _ h ne = (_, refl, (refl, refl))

-- Before the handshake is done, no message makes the handler fault or change database or file, and it
-- keeps the descriptor of the client, and its state or takes it from hello to message.
pub handle_client_fsm-Untouched :
    (e : Endian) (b : Bool) (db : Db) (disk : Fd) (c : ClientState)
    → c.state ≢ state_msg
    → (r : Handled) × (handle_client_fsm e b db disk c ≡ some r) × Untouched db disk r × Moves c r
unfolding handle_client_fsm
handle_client_fsm-Untouched e b db disk c ne =
    let (r, p, u) = dispatch-Untouched e b db disk c (header_ntoh e c.buffer) c.state refl ne in
    (r, p, u, handle_client_fsm-Moves e b db disk c r p)
