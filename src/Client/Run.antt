-- ===== src/Client/Run.antt =====
-- `main` of src/client/main.c.
use lowlevel_academy.Prelude.{
  ℕ, ◌%◌, Bool, true, false, List, [], ◌∷◌, ◌++◌, Option, none, some, ◌==◌, if◌then◌else◌,
}
use lowlevel_academy.Host.{Endian}
use lowlevel_academy.Cstring.{atoi}
use lowlevel_academy.Client.{Row, send_hello, send_employee, list_employees}
pub mod Session

-- What `getopt (argc, argv, "p:h:a:l")` returns, call by call.
pub data Opt : Type 0 where
  opt_p : List ℕ → Opt
  opt_h : List ℕ → Opt
  opt_a : List ℕ → Opt
  opt_l : Opt
  opt_unknown : Opt
  opt_other : Opt

pub record Args : Type 0 where
  pub add_arg : Option (List ℕ)
  pub host_arg : Option (List ℕ)
  pub list_arg : Bool
  pub port : ℕ

abbrev pub no_args : Args
no_args = record { add_arg = none; host_arg = none; list_arg = false; port = 0 }

-- `none`: `return -1`, which an unknown option falls through to.
unfoldable pub parse_args : List Opt → Args → Option Args
parse_args [] a = some a
parse_args (opt_p t ∷ os) a = parse_args os (record a { port = atoi t % 65536 })
parse_args (opt_h t ∷ os) a = parse_args os (record a { host_arg = some t })
parse_args (opt_a t ∷ os) a = parse_args os (record a { add_arg = some t })
parse_args (opt_l ∷ os) a = parse_args os (record a { list_arg = true })
parse_args (opt_unknown ∷ os) a = none
parse_args (opt_other ∷ os) a = none

-- Whether `socket` and `connect` succeed, and what the calls of `read` bring for each request.
pub record Net : Type 0 where
  pub opened : Bool
  pub connected : Bool
  pub hello_answer : List ℕ
  pub add_answer : List ℕ
  pub list_answers : List (List ℕ)

pub data Code : Type 0 where
  return_zero return_minus_one : Code

-- How `main` ends: its status, what it has sent, and the employees that it has listed.
pub record Ended : Type 0 where
  pub code : Code
  pub sent : List (List ℕ)
  pub rows : List Row

unfoldable pub ended : Code → List (List ℕ) → List Row → Ended
ended c sent rows = record { code = c; sent = sent; rows = rows }

unfoldable pub rows_of : Option (List Row) → List Row
rows_of none = []
rows_of (some rows) = rows

-- Its status is not looked at; `main` ends with 0.
unfoldable pub list_step : Endian → (list_arg : Bool) → Net → List (List ℕ) → Ended
unfolding ended rows_of
list_step e false net sent = ended return_zero sent []
list_step e true net sent =
    let r = list_employees e net.list_answers in ended return_zero (sent ++ r.0 ∷ []) (rows_of r.1)

unfoldable pub add_step : Endian → Option (List ℕ) → (list_arg : Bool) → Net → List (List ℕ) → Ended
unfolding list_step
add_step e none list_arg net sent = list_step e list_arg net sent
add_step e (some text) list_arg net sent =
    list_step e list_arg net (sent ++ (send_employee e text net.add_answer).0 ∷ [])

unfoldable pub after_hello : Endian → Args → Net → List ℕ → Option ℕ → Ended
unfolding add_step ended
after_hello e a net sent none = ended return_minus_one (sent ∷ []) []
after_hello e a net sent (some version) = add_step e a.add_arg a.list_arg net (sent ∷ [])

unfoldable pub talk : Endian → Args → Net → Ended
unfolding after_hello
talk e a net = let r = send_hello e net.hello_answer in after_hello e a net r.0 r.1

unfoldable pub connect_step : Endian → Args → Net → Ended
unfolding talk ended
connect_step e a net =
    if net.opened
    then (if net.connected then talk e a net else ended return_zero [] [])
    else ended return_minus_one [] []

-- Without a host, `inet_addr` is given NULL: `none` is that fault.
unfoldable pub with_host : Endian → Args → Net → Option (List ℕ) → Option Ended
unfolding connect_step
with_host e a net none = none
with_host e a net (some host) = some (connect_step e a net)

unfoldable pub run_args : Endian → Net → Option Args → Option Ended
unfolding with_host ended
run_args e net none = some (ended return_minus_one [] [])
run_args e net (some a) =
    if a.port == 0 then some (ended return_minus_one [] []) else with_host e a net a.host_arg

unfoldable pub main : Endian → Net → List Opt → Option Ended
unfolding run_args parse_args
main e net os = run_args e net (parse_args os no_args)
