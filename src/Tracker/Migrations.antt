-- ===== src/Tracker/Migrations.antt =====
-- bin/tracker/src/store.rs, `run_migrations`: each migration that is not recorded runs in one
-- transaction with its record. A migration is its name; what its SQL does to the schema is the list of
-- the scripts that ran.
pub mod Recorded
pub mod Complete
mod Tests
use tx3_lift.Prelude.{
  ℕ, ◌≡◌, refl, ap, ◌∙◌, ◌⊎◌, inl, inr, Bool, true, false, List, [], ◌∷◌, ◌++◌, Text, text, Result,
  ok, err, any, Bool-cases, if◌then◌else◌, arith,
}
use tx3_lift.Prelude.Order.{nat_ord, list_ord, ◌==◌}
use tx3_lift.Tracker.Sql.{SqlError, sqlite, Faults, Sql, execute, ◌>>=◌, ◌>>◌, pure, idle}

pub record Schema : Type 0 where
  pub scripts_run : List Text
  pub versions : List Text

-- `tx.execute_batch(sql)?`
abbrev pub run_script : Text → Schema → Unit {0} × Schema
run_script name s = (tt, record s { scripts_run = s.scripts_run ++ name ∷ [] })

-- `INSERT INTO _schema_versions …`
abbrev pub record_version : Text → Schema → Unit {0} × Schema
record_version name s = (tt, record s { versions = s.versions ++ name ∷ [] })

-- the transaction of one migration; its statements are `BEGIN`, the two and `COMMIT`
pub migration_body : Text → Sql Schema (Unit {0})
migration_body name = do
  execute idle
  execute (run_script name)
  execute (record_version name)
  execute idle
  pure tt

-- the rest of the run after the transaction, which leaves nothing where it fails
abbrev pub and_then :
    Result SqlError ((Unit {0}) × Faults × Schema)
    → Schema
    → (Faults → Schema → Result SqlError (Unit {0}) × Schema)
    → Result SqlError (Unit {0}) × Schema
and_then (ok (a, faults, s')) s rest = rest faults s'
and_then (err e) s rest = (err e, s)

-- the loop over the migrations: the query for the record, and the migration where there is none
pub run_each : List Text → Faults → Schema → Result SqlError (Unit {0}) × Schema
unfolding migration_body
run_each [] faults s = (ok tt, s)
run_each (name ∷ names) (true ∷ faults) s = (err sqlite, s)
run_each (name ∷ names) (false ∷ faults) s =
    let skip = run_each names faults s in
    let apply =
      and_then (migration_body name faults s) s (λ faults' s'. run_each names faults' s') in
    if any (λ v. v == name) s.versions then skip else apply
run_each (name ∷ names) [] s =
    let skip = run_each names [] s in
    let apply = and_then (migration_body name [] s) s (λ faults' s'. run_each names faults' s') in
    if any (λ v. v == name) s.versions then skip else apply

-- `MIGRATIONS`, by name
abbrev pub migrations : List Text
migrations = text "001_initial" ∷ text "002_score_rank" ∷ []

-- the first statement makes the table of the records where it is not there
unfoldable pub run_migrations : Faults → Schema → Result SqlError (Unit {0}) × Schema
unfolding run_each
run_migrations [] s = run_each migrations [] s
run_migrations (false ∷ faults) s = run_each migrations faults s
run_migrations (true ∷ faults) s = (err sqlite, s)
