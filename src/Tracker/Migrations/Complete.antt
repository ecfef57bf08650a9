-- ===== src/Tracker/Migrations/Complete.antt =====
-- bin/tracker/src/store.rs, `run_migrations`: a run that succeeds has applied everything.
use mathlib.Core.Path.{subst}
use tx3_lift.Prelude.{
  ◌≡◌, refl, ap, ◌∙◌, inl, inr, true, false, List, [], ◌∷◌, Text, Result, ok, err, any, any-append,
  All, Bool-cases, arith,
}
use tx3_lift.Prelude.Order.{nat_ord, list_ord, ◌==◌, ==_iff}
use tx3_lift.Tracker.Sql.{SqlError, sqlite, Faults}
use tx3_lift.Tracker.Migrations.{
  Schema, migration_body, and_then, run_each, migrations, run_migrations,
}
use tx3_lift.Tracker.Migrations.Recorded.{migrated, migration_body-cases}

-- the migration has its record
abbrev pub IsRecorded : Schema → Text → Type 0
IsRecorded s name = any (λ v. v == name) s.versions ≡ true

-- all that is recorded in the one is recorded in the other
abbrev Extends : Schema → Schema → Type 0
Extends s t = (name : Text) → IsRecorded s name → IsRecorded t name

migrated-IsRecorded : (name : Text) (s : Schema) → IsRecorded (migrated name s) name
migrated-IsRecorded name s =
    any-append (λ v. v == name) s.versions (name ∷ []) ∙ ground (arith, (==_iff name name).1 refl)

migrated-Extends : (name : Text) (s : Schema) → Extends s (migrated name s)
migrated-Extends name s other h = any-append (λ v. v == other) s.versions (name ∷ []) ∙ ground arith

-- where the run succeeded, the names are recorded, and nothing is lost
Completes : List Text → Schema → Result SqlError (Unit {0}) × Schema → Type 0
Completes names s r = r.0 ≡ ok tt → All (IsRecorded r.1) names × Extends s r.1

failed-Completes : (names : List Text) (s t : Schema) → Completes names s (err sqlite, t)
unfolding Completes
failed-Completes names s t q = cc

next-Completes :
    (name : Text) (names : List Text) (s t : Schema) (r : Result SqlError (Unit {0}) × Schema)
    → IsRecorded t name
    → Extends s t
    → Completes names t r
    → Completes (name ∷ names) s r
unfolding Completes
next-Completes name names s t r h e c q =
    (((c q).1 name h, (c q).0), λ other k. (c q).1 other (e other k))

result-Completes :
    (names : List Text) (s t : Schema) (r : Result SqlError (Unit {0}) × Schema)
    → Completes names s r
    → r ≡ (ok tt, t)
    → All (IsRecorded t) names × Extends s t
unfolding Completes
result-Completes names s t r c e =
    subst (λ x. All (IsRecorded x) names × Extends s x) (ap (λ x. x.1) e) (c (ap (λ x. x.0) e))

step-Completes :
    (name : Text) (names : List Text) (faults : Faults) (s : Schema)
    → ((f : Faults) (t : Schema) → Completes names t (run_each names f t))
    → Completes
        (name ∷ names)
        s
        (and_then (migration_body name faults s) s (λ faults' s'. run_each names faults' s'))
step-Completes name names faults s rest = elim (migration_body-cases name faults s) [
  | inl e ↦ rw (e, and_then) (failed-Completes (name ∷ names) s s)
  | inr (faults', e) ↦
      rw (e, and_then)
        (next-Completes name names s (migrated name s) (run_each names faults' (migrated name s))
          (migrated-IsRecorded name s) (migrated-Extends name s) (rest faults' (migrated name s)))
]

run_each-Completes :
    (names : List Text) (faults : Faults) (s : Schema) → Completes names s (run_each names faults s)
unfolding run_each
run_each-Completes [] faults s = unfold Completes in λ q. (tt, λ name h. h)
run_each-Completes (name ∷ names) (true ∷ faults) s = failed-Completes (name ∷ names) s s
run_each-Completes (name ∷ names) (false ∷ faults) s =
    elim (Bool-cases (any (λ v. v == name) s.versions)) [
      | inl e ↦ rw e (
          next-Completes name names s s (run_each names faults s) e (λ n h. h)
            (run_each-Completes names faults s))
      | inr e ↦ rw e (step-Completes name names faults s (run_each-Completes names))
    ]
run_each-Completes (name ∷ names) [] s = elim (Bool-cases (any (λ v. v == name) s.versions)) [
  | inl e ↦ rw e (
      next-Completes name names s s (run_each names [] s) e (λ n h. h)
        (run_each-Completes names [] s))
  | inr e ↦ rw e (step-Completes name names [] s (run_each-Completes names))
]

run_each-recorded :
    (names : List Text) (s : Schema) → All (IsRecorded s) names → run_each names [] s ≡ (ok tt, s)
unfolding run_each
run_each-recorded [] s h = refl
run_each-recorded (name ∷ names) s h = rw (h.0) (run_each-recorded names s h.1)

-- A run of the migrations that succeeds leaves a record of each of them and keeps the records that were
-- there, and the next run, where no statement fails, succeeds and changes nothing.
pub run_migrations_complete :
    (faults : Faults) (s t : Schema)
    → run_migrations faults s ≡ (ok tt, t)
    → All (IsRecorded t) migrations
      × ((name : Text) → IsRecorded s name → IsRecorded t name)
      × (run_migrations [] t ≡ (ok tt, t))
unfolding run_migrations
run_migrations_complete faults s t h =
    let (all, kept) = from_each faults h in (all, kept, run_each-recorded migrations t all)
  where
    from_each :
        (f : Faults) → run_migrations f s ≡ (ok tt, t) → All (IsRecorded t) migrations × Extends s t
    from_each [] e =
        result-Completes migrations s t (run_each migrations [] s)
          (run_each-Completes migrations [] s) e
    from_each (false ∷ f) e =
        result-Completes migrations s t (run_each migrations f s)
          (run_each-Completes migrations f s) e
    from_each (true ∷ f) e =
        result-Completes migrations s t (err sqlite, s) (failed-Completes migrations s s) e
