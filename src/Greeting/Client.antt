-- ===== src/Greeting/Client.antt =====
-- 02-networking-code/03_socket_programming/client.c.
use lowlevel_academy.Prelude.{
  ℕ, Bool, true, false, List, [], ◌∷◌, take, drop, replicate, ◌==◌, if◌then◌else◌,
}
use lowlevel_academy.Host.{Endian, load16, load32, store16, store32, ntohs, ntohl}
use lowlevel_academy.Memory.{write_bytes}

-- The lines that are printed. The version is an `int`, kept as its 32 bits.
pub data Line : Type 0 where
  usage : Line
  type_mismatch : Line
  version_mismatch : Line
  connected : ℕ → Line

unfoldable pub header_ntoh : Endian → List ℕ → List ℕ
header_ntoh e buf =
    let b = write_bytes 0 (store32 e (ntohl e (load32 e buf))) buf in
    write_bytes 4 (store16 e (ntohs e (load16 e (drop 4 b)))) b

unfoldable pub data_ntoh : Endian → List ℕ → List ℕ
data_ntoh e buf = write_bytes 8 (store32 e (ntohl e (load32 e (drop 8 buf)))) buf

unfoldable pub unless : Bool → Line → List Line → List Line
unless true line lines = lines
unless false line lines = line ∷ lines

-- The two tests and the last line, on the converted buffer.
unfoldable pub report : (type version : ℕ) → List Line
unfolding unless
report type version =
    unless (type == 0) type_mismatch
      (unless (version == 1) version_mismatch (connected version ∷ []))

-- `bytes` is what the descriptor has to read, none if `read` fails.
unfoldable pub handle_connection : Endian → (bytes : List ℕ) → List Line
unfolding report
handle_connection e bytes =
    let buf = data_ntoh e (header_ntoh e (write_bytes 0 (take 12 bytes) (replicate 4096 0))) in
    report (load32 e buf) (load32 e (drop 8 buf))

pub data Code : Type 0 where
  return_zero return_minus_one : Code

pub record Ended : Type 0 where
  pub code : Code
  pub lines : List Line

-- Whether `socket` and `connect` succeed is an argument.
unfoldable pub connect_step : Endian → (opened linked : Bool) → (bytes : List ℕ) → Ended
unfolding handle_connection
connect_step e false _ bytes = record { code = return_minus_one; lines = [] }
connect_step e true false bytes = record { code = return_zero; lines = [] }
connect_step e true true bytes = record { code = return_zero; lines = handle_connection e bytes }

unfoldable pub main : Endian → (argc : ℕ) → (opened linked : Bool) → (bytes : List ℕ) → Ended
unfolding connect_step
main e argc opened linked bytes =
    if argc == 2
    then connect_step e opened linked bytes
    else record { code = return_zero; lines = usage ∷ [] }
