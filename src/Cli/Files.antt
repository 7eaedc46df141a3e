-- ===== src/Cli/Files.antt =====
-- file.c of the command line program: `create_db_file` and `open_db_file`.
use lowlevel_academy.Prelude.{none, some}
use lowlevel_academy.Database.{Fd}
use lowlevel_academy.Server.Files.{Entry, open_rdwr, open_creat}

-- A file that is there is closed again and refused; otherwise one is made.
unfoldable pub create_missing : Entry → Fd → Fd
unfolding open_creat
create_missing p (some f) = none
create_missing p none = open_creat p

unfoldable pub create_db_file : Entry → Fd
unfolding create_missing open_rdwr
create_db_file p = create_missing p (open_rdwr p)

unfoldable pub open_db_file : Entry → Fd
unfolding open_rdwr
open_db_file p = open_rdwr p
