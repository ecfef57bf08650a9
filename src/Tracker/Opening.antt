-- ===== src/Tracker/Opening.antt =====
-- bin/tracker/src/store.rs, `Store::open`: the directory, the file, its pragmas and its migrations.
use tx3_lift.Prelude.{
  Bool, [], Option, none, some, Text, Result, ok, ◌>>=◌, ok_or, map_err, is_empty, if◌then◌else◌,
}
use tx3_lift.Tracker.Error.{TrackerError, io_error, sqlite_error}
use tx3_lift.Tracker.Sql.{Faults}
use tx3_lift.Tracker.Store.{Db}
use tx3_lift.Tracker.Migrations.{Schema, run_migrations}
use tx3_lift.Tracker.Upstream.{check}

-- what the file system and SQLite answer for a path: its parent, whether the directories are made, what
-- the file records of its migrations, whether the pragmas are set, which statements of the migrations
-- fail, and the rows of the tables after them
pub record Disk : Type 0 where
  pub parent : Option Text
  pub create_dir_all : Bool
  pub connection : Option Schema
  pub journal_mode : Bool
  pub foreign_keys : Bool
  pub faults : Faults
  pub tables : Db

-- `if let Some(parent) = path.parent()`
abbrev pub create_parent : Option Text → Bool → Result TrackerError (Unit {0})
create_parent none created = ok tt
create_parent (some parent) created = if is_empty parent then ok tt else check created io_error

unfoldable pub open_store : Disk → Result TrackerError Db
open_store disk = do
  _ ← create_parent disk.parent disk.create_dir_all
  schema ← ok_or disk.connection sqlite_error
  _ ← check disk.journal_mode sqlite_error
  _ ← check disk.foreign_keys sqlite_error
  _ ← map_err (λ e. sqlite_error) (run_migrations disk.faults schema).0
  ok disk.tables

-- `Store::open_memory`: whether SQLite opens a database in memory, and which statements fail; it has no
-- row, no cursor and no migration
unfoldable pub open_memory : Bool → Faults → Result TrackerError Db
open_memory opened faults = do
  _ ← check opened sqlite_error
  _ ←
      map_err (λ e. sqlite_error)
        (run_migrations faults (record { scripts_run = []; versions = [] })).0
  ok (record { matches = []; cursor = none })
