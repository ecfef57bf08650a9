-- ===== src/Tracker/Sql.antt =====
-- SQLite as bin/tracker/src/store.rs uses it: a statement works on the database or fails, and a
-- transaction that is dropped before its commit leaves nothing. Which statements fail is an input.
use tx3_lift.Prelude.{Bool, true, false, List, [], ◌∷◌, ◌≡◌, refl, ◌⊎◌, inl, inr, Result, ok, err}

pub data SqlError : Type 0 where
  sqlite : SqlError

-- for each statement to come, whether it fails; past the end none does
abbrev pub Faults : Type 0
Faults = List Bool

abbrev pub Sql : Type 0 → Type 0 → Type 0
Sql S A = Faults → S → Result SqlError (A × Faults × S)

module _ {S : Type 0} where
  abbrev pub execute : {A : Type 0} → (S → A × S) → Sql S A
  execute statement [] s = let (a, s') = statement s in ok (a, [], s')
  execute statement (false ∷ faults) s = let (a, s') = statement s in ok (a, faults, s')
  execute statement (true ∷ faults) s = err sqlite

  infixl 5 ◌>>=◌ ◌>>◌
  abbrev pub ◌>>=◌ : {A B : Type 0} → Sql S A → (A → Sql S B) → Sql S B
  ◌>>=◌ m f faults s = elim (m faults s) [ ok (a, faults', s') ↦ f a faults' s' | err e ↦ err e ]

  abbrev pub ◌>>◌ : {A B : Type 0} → Sql S A → Sql S B → Sql S B
  m >> n = m >>= λ _. n

  -- `conn.transaction()? … tx.commit()?`: the result, and the database after it
  abbrev pub transaction : {A : Type 0} → Sql S A → Faults → S → Result SqlError A × S
  transaction body faults s = elim (body faults s) [
    | ok (a, faults', s') ↦ (ok a, s')
    | err e ↦ (err e, s)
  ]

  abbrev pub pure : {A : Type 0} → A → Sql S A
  pure a faults s = ok (a, faults, s)

  -- `BEGIN`, `COMMIT` and `prepare` change nothing
  abbrev pub idle : S → Unit {0} × S
  idle s = (tt, s)

  -- a transaction with faults does what it does without them, or nothing
  abbrev pub AllOrNothing : {A : Type 0} → Sql S A → Type 0
  AllOrNothing {A} body =
      (faults : Faults) (s : S)
      → ((a : A) × (faults' : Faults) × (s' : S) × (body faults s ≡ ok (a, faults', s'))
          × (body [] s ≡ ok (a, [], s')))
        ⊎ (body faults s ≡ err sqlite)

  pub execute-AllOrNothing : {A : Type 0} (statement : S → A × S) → AllOrNothing (execute statement)
  execute-AllOrNothing statement [] s = inl ((statement s).0, [], (statement s).1, refl, refl)
  execute-AllOrNothing statement (false ∷ faults) s =
      inl ((statement s).0, faults, (statement s).1, refl, refl)
  execute-AllOrNothing statement (true ∷ faults) s = inr refl

  pub pure-AllOrNothing : {A : Type 0} (a : A) → AllOrNothing (pure a)
  pure-AllOrNothing a faults s = inl (a, faults, s, refl, refl)

  pub bind-AllOrNothing :
      {A B : Type 0} (m : Sql S A) (f : A → Sql S B)
      → AllOrNothing m
      → ((a : A) → AllOrNothing (f a))
      → AllOrNothing (m >>= f)
  bind-AllOrNothing m f hm hf faults s = elim (hm faults s) [
    | inr e ↦ inr (rw (e, ◌>>=◌))
    | inl (a, faults', s', e, e0) ↦ rw (e, e0, ◌>>=◌) (hf a faults' s')
  ]

  -- so the database after a transaction is the one without faults, or the one before
  pub transaction_atomic :
      {A : Type 0} (body : Sql S A) (faults : Faults) (s : S)
      → AllOrNothing body
      → (transaction body faults s ≡ transaction body [] s)
        ⊎ (transaction body faults s ≡ (err sqlite, s))
  transaction_atomic body faults s h = elim (h faults s) [
    | inl (a, faults', s', e, e0) ↦ inl (rw (e, e0, transaction))
    | inr e ↦ inr (rw (e, transaction))
  ]
