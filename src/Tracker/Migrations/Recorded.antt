-- ===== src/Tracker/Migrations/Recorded.antt =====
-- bin/tracker/src/store.rs, `run_migrations`: no crash leaves a migration applied and not recorded, and
-- none is applied twice.
use tx3_lift.Prelude.{
  ◌≡◌, refl, ap, ◌⊎◌, inl, inr, true, false, List, [], ◌∷◌, ◌++◌, Text, ok, err, any, All-append,
  Pairwise, Bool-cases, arith,
}
use tx3_lift.Prelude.Order.{nat_ord, list_ord, ◌==◌}
use tx3_lift.Tracker.Sql.{sqlite, Faults}
use tx3_lift.Tracker.Migrations.{
  Schema, migration_body, and_then, run_each, migrations, run_migrations,
}

-- the scripts that ran are the recorded ones, each of them once
abbrev pub IsConsistent : Schema → Type 0
IsConsistent s = (s.scripts_run ≡ s.versions) × Pairwise (λ a b. (a == b) ≡ false) s.versions

abbrev pub migrated : Text → Schema → Schema
migrated name s = record {
  scripts_run = s.scripts_run ++ name ∷ [];
  versions = s.versions ++ name ∷ [];
}

pub migration_body-cases :
    (name : Text) (faults : Faults) (s : Schema)
    → (migration_body name faults s ≡ err sqlite)
      ⊎ ((faults' : Faults) × (migration_body name faults s ≡ ok (tt, faults', migrated name s)))
unfolding migration_body
migration_body-cases name [] s = inr ([], refl)
migration_body-cases name (true ∷ f) s = inl refl
migration_body-cases name (false ∷ []) s = inr ([], refl)
migration_body-cases name (false ∷ true ∷ f) s = inl refl
migration_body-cases name (false ∷ false ∷ []) s = inr ([], refl)
migration_body-cases name (false ∷ false ∷ true ∷ f) s = inl refl
migration_body-cases name (false ∷ false ∷ false ∷ []) s = inr ([], refl)
migration_body-cases name (false ∷ false ∷ false ∷ true ∷ f) s = inl refl
migration_body-cases name (false ∷ false ∷ false ∷ false ∷ f) s = inr (f, refl)

Pairwise-snoc :
    (xs : List Text) (n : Text)
    → Pairwise (λ a b. (a == b) ≡ false) xs
    → any (λ v. v == n) xs ≡ false
    → Pairwise (λ a b. (a == b) ≡ false) (xs ++ n ∷ [])
Pairwise-snoc [] n p h = (tt, tt)
Pairwise-snoc (x ∷ xs) n p h = (
  All-append (λ b. (x == b) ≡ false) xs (n ∷ []) p.0 (ground arith, tt),
  Pairwise-snoc xs n p.1 (ground arith),
)

migrated-IsConsistent :
    (name : Text) (s : Schema)
    → IsConsistent s
    → any (λ v. v == name) s.versions ≡ false
    → IsConsistent (migrated name s)
migrated-IsConsistent name s c h =
    (ap (λ xs. xs ++ name ∷ []) c.0, Pairwise-snoc s.versions name c.1 h)

step-IsConsistent :
    (name : Text) (names : List Text) (faults : Faults) (s : Schema)
    → IsConsistent s
    → any (λ v. v == name) s.versions ≡ false
    → ((f : Faults) (t : Schema) → IsConsistent t → IsConsistent (run_each names f t).1)
    → IsConsistent
        (and_then (migration_body name faults s) s (λ faults' s'. run_each names faults' s')).1
step-IsConsistent name names faults s c h rest = elim (migration_body-cases name faults s) [
  | inl e ↦ rw (e, and_then) c
  | inr (faults', e) ↦
      rw (e, and_then) (rest faults' (migrated name s) (migrated-IsConsistent name s c h))
]

run_each-IsConsistent :
    (names : List Text) (faults : Faults) (s : Schema)
    → IsConsistent s
    → IsConsistent (run_each names faults s).1
unfolding run_each
run_each-IsConsistent [] faults s c = c
run_each-IsConsistent (name ∷ names) (true ∷ faults) s c = c
run_each-IsConsistent (name ∷ names) (false ∷ faults) s c =
    elim (Bool-cases (any (λ v. v == name) s.versions)) [
      | inl e ↦ rw e (run_each-IsConsistent names faults s c)
      | inr e ↦ rw e (step-IsConsistent name names faults s c e (run_each-IsConsistent names))
    ]
run_each-IsConsistent (name ∷ names) [] s c = elim (Bool-cases (any (λ v. v == name) s.versions)) [
  | inl e ↦ rw e (run_each-IsConsistent names [] s c)
  | inr e ↦ rw e (step-IsConsistent name names [] s c e (run_each-IsConsistent names))
]

-- Where the scripts that ran are the recorded ones, each once, that holds after `run_migrations`
-- too, whichever statement fails: no migration is left applied and unrecorded, and none runs twice.
pub run_migrations-IsConsistent :
    (faults : Faults) (s : Schema) → IsConsistent s → IsConsistent (run_migrations faults s).1
unfolding run_migrations
run_migrations-IsConsistent [] s c = run_each-IsConsistent migrations [] s c
run_migrations-IsConsistent (false ∷ faults) s c = run_each-IsConsistent migrations faults s c
run_migrations-IsConsistent (true ∷ faults) s c = c
