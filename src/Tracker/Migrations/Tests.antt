-- ===== src/Tracker/Migrations/Tests.antt =====
-- A run that stops in the second migration.
use tx3_lift.Prelude.{◌≡◌, refl, true, false, [], ◌∷◌, text, err, All, Text, ok}
use tx3_lift.Tracker.Sql.{sqlite}
use tx3_lift.Tracker.Migrations.{Schema, migrations, run_migrations}
use tx3_lift.Tracker.Migrations.Complete.{IsRecorded, run_migrations_complete}
use tx3_lift.Tracker.Migrations.Recorded.{IsConsistent, run_migrations-IsConsistent}

abbrev fresh : Schema
fresh = record { scripts_run = []; versions = [] }

abbrev first_only : Schema
first_only = record { scripts_run = text "001_initial" ∷ []; versions = text "001_initial" ∷ [] }

-- the query for the second record succeeds, its script runs, its record fails
stopped :
    run_migrations
      (false ∷ false ∷ false ∷ false ∷ false ∷ false ∷ false ∷ false ∷ false ∷ true ∷ [])
      fresh
    ≡ (err sqlite, first_only)
unfolding run_migrations
stopped = refl

run_migrations-IsConsistent_example :
    IsConsistent (run_migrations (false ∷ false ∷ true ∷ []) fresh).1
run_migrations-IsConsistent_example =
    run_migrations-IsConsistent (false ∷ false ∷ true ∷ []) fresh (refl, tt)

abbrev both : Schema
both = record { scripts_run = migrations; versions = migrations }

run_migrations_complete_example :
    All (IsRecorded both) migrations
    × ((name : Text) → IsRecorded first_only name → IsRecorded both name)
    × (run_migrations [] both ≡ (ok tt, both))
unfolding run_migrations
run_migrations_complete_example = run_migrations_complete (false ∷ []) first_only both refl
