-- ===== src/Cli.antt =====
-- The program of 01-lowlevel-academy-c/12_course_project, which opens the database from a command
-- line. Its structs are those of the server, so the types of Database serve here too.
use lowlevel_academy.Prelude.{List, Option}
use lowlevel_academy.Database.{Header, Employee}
pub mod Files
pub mod Load
pub mod Edit
pub mod Save
pub mod Run

-- `struct employee_t *employees` of `main`: `none` is NULL.
abbrev pub Array : Type 0
Array = Option (List Employee)

-- What `header` and `employees` of `main` point to.
pub record Base : Type 0 where
  pub header : Header
  pub array : Array
