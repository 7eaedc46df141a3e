-- ===== src/Tests/Samples.antt =====
-- The data that the examples share.
use lowlevel_academy.Prelude.{◌≢◌, refl, [], ◌∷◌, some, arith, replicate}
use lowlevel_academy.Cstring.{atoi}
use lowlevel_academy.Cstring.Copy.{NoNul}
use lowlevel_academy.Database.{File}
use lowlevel_academy.Database.Add.{Db}
use lowlevel_academy.Database.Add.Text.{Parts, IsParts, joined}
use lowlevel_academy.Database.Format.{IsValid}
use lowlevel_academy.Database.Person.{Person, ArePersons}
use lowlevel_academy.Database.Load.Reopen.{header_of}
use lowlevel_academy.Server.{State, ClientState}

abbrev pub no_employees : Db
no_employees = record { header = header_of 0; employees = [] }

abbrev pub empty_file : File
empty_file = record { bytes = []; pos = 0 }

pub no_employees-IsValid : IsValid no_employees
no_employees-IsValid = record {
  magic = refl;
  version = refl;
  counted = refl;
  count_fits = omega arith;
  records = tt;
}

-- "A,B,7"
abbrev pub parts : Parts
parts = record { name = b'A' ∷ []; address = b'B' ∷ []; hours = b'7' ∷ [] }

hours_given : atoi (b'7' ∷ []) ≢ 0
unfolding atoi
hours_given = λ q. cc

pub parts-IsParts : IsParts parts
parts-IsParts = record {
  name_part = omega arith;
  address_part = omega arith;
  hours_part = omega arith;
  hours_given = hours_given;
}

pub parts-NoNul : NoNul (joined parts)
parts-NoNul = omega arith

-- A client of descriptor 7 whose buffer is zeroed.
abbrev pub client_in : State → ClientState
client_in s = record { fd = some 7; state = s; buffer = replicate 4096 0 }

abbrev pub person : Person
person = record { name = b'A' ∷ []; address = b'B' ∷ []; hours = 7 }

pub person-ArePersons : ArePersons (person ∷ [])
person-ArePersons = (
  record {
    name_clean = omega arith;
    name_short = omega arith;
    address_clean = omega arith;
    address_short = omega arith;
    hours_fit = omega arith;
  },
  tt,
)
