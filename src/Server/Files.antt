-- ===== src/Server/Files.antt =====
-- `create_db_file` and `open_db_file` of file.c. The file system is seen at the one path that a
-- program is given.
use lowlevel_academy.Prelude.{ℕ, Bool, true, false, List, [], none, some}
use lowlevel_academy.Database.{Fd}

-- What is at the path: nothing (and whether a file may be made there), something that may not be
-- opened for reading and writing, or a file.
pub data Entry : Type 0 where
  absent : (may_create : Bool) → Entry
  denied : Entry
  regular : List ℕ → Entry

-- `open (filename, O_RDWR)`: -1, or a file at offset 0.
unfoldable pub open_rdwr : Entry → Fd
open_rdwr (absent b) = none
open_rdwr denied = none
open_rdwr (regular bs) = some (record { bytes = bs; pos = 0 })

-- `open (filename, O_RDWR | O_CREAT, 0644)`
unfoldable pub open_creat : Entry → Fd
open_creat (absent true) = some (record { bytes = []; pos = 0 })
open_creat (absent false) = none
open_creat denied = none
open_creat (regular bs) = some (record { bytes = bs; pos = 0 })

unfoldable pub open_db_file : Entry → Fd
unfolding open_rdwr
open_db_file p = open_rdwr p

-- A file that is there already is closed again, and refused.
unfoldable pub create_db_file : Entry → Fd
unfolding open_rdwr open_creat
create_db_file p = elim (open_rdwr p) [ some f ↦ none | none ↦ open_creat p ]
