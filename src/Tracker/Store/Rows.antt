-- ===== src/Tracker/Store/Rows.antt =====
-- The table `matches` under `apply_block` and `undo_tx`.
use tx3_lift.Prelude.{
  ℕ, ◌+◌, ◌-◌, ◌≤◌, ℤ, ◌≡◌, refl, ap, ◌∙◌, ◌⊎◌, inl, inr, true, Option, some, List, [], ◌∷◌, ◌++◌,
  Bytes, ok, err, any, length, length-append, All, any-append, Bool-cases, if◌then◌else◌, arith,
}
use tx3_lift.Prelude.Order.{nat_ord, list_ord, text_ord}
use tx3_lift.Tracker.Sql.{
  sqlite, Faults, execute, ◌>>=◌, idle, transaction, AllOrNothing, execute-AllOrNothing,
  pure-AllOrNothing, bind-AllOrNothing, transaction_atomic,
}
use tx3_lift.Tracker.Store.{
  ChainPoint, OwnedMatchRow, StoredRow, Db, as_i64, stored, same_key, insert_or_ignore,
  upsert_cursor, insert_rows, apply_body, apply_block, delete_matches, set_parent, undo_body,
  undo_tx,
}

-- what the inserts do to the table
abbrev pub add_row : StoredRow → List StoredRow → List StoredRow
add_row row ms = if any (same_key row) ms then ms else ms ++ row ∷ []

abbrev pub add_rows : ℤ → List OwnedMatchRow → List StoredRow → List StoredRow
add_rows now [] ms = ms
add_rows now (row ∷ rows) ms = add_rows now rows (add_row (stored now row) ms)

length-add_row-le : (row : StoredRow) (ms : List StoredRow) → length ms ≤ length (add_row row ms)
length-add_row-le row ms = ground (arith, length-append ms (row ∷ []))

length-add_rows-le :
    (now : ℤ) (rows : List OwnedMatchRow) (ms : List StoredRow)
    → length ms ≤ length (add_rows now rows ms)
length-add_rows-le now [] ms = omega arith
length-add_rows-le now (row ∷ rows) ms = omega (
  arith,
  length-add_row-le (stored now row) ms,
  length-add_rows-le now rows (add_row (stored now row) ms),
)

insert_rows_lem :
    (now : ℤ) (rows : List OwnedMatchRow) (n : ℕ) (db : Db)
    → insert_rows now rows n [] db
      ≡ ok (
        n + (length (add_rows now rows db.matches) - length db.matches),
        [],
        record db { matches = add_rows now rows db.matches },
      )
unfolding insert_rows
insert_rows_lem now [] n db = ap (λ k. ok (k, [], db)) (omega arith)
insert_rows_lem now (row ∷ rows) n db =
    elim (Bool-cases (any (same_key (stored now row)) db.matches)) [
      | inl y ↦
          rw (y, insert_or_ignore)
            (insert_rows_lem now rows (n + 0) db
              ∙ ap (λ k. ok (k, [], record db { matches = add_rows now rows db.matches }))
                  (omega arith))
      | inr m ↦
          let ms = db.matches ++ stored now row ∷ [] in
          rw (m, insert_or_ignore)
            (insert_rows_lem now rows (n + 1) (record db { matches = ms })
              ∙ ap (λ k. ok (k, [], record db { matches = add_rows now rows ms }))
                  (omega (
                    arith,
                    length-append db.matches (stored now row ∷ []),
                    length-add_rows-le now rows ms,
                  )))
    ]

abbrev pub applied : ℤ → ChainPoint → List OwnedMatchRow → Db → Db
applied now point rows db = record {
  matches = add_rows now rows db.matches;
  cursor = some (record { slot = as_i64 point.slot; block_hash = point.hash });
}

-- An application without faults adds the rows whose key is not there yet, and sets the cursor.
pub apply_block_lem :
    (now : ℤ) (point : ChainPoint) (rows : List OwnedMatchRow) (db : Db)
    → apply_block [] now point rows db
      ≡ (ok (length (add_rows now rows db.matches) - length db.matches), applied now point rows db)
unfolding apply_block apply_body
apply_block_lem now point rows db =
    rw (insert_rows_lem now rows 0 db, ◌>>=◌, transaction)
      (ap (λ k. (ok k, applied now point rows db)) (omega arith))

-- faults
insert_rows-AllOrNothing :
    (now : ℤ) (rows : List OwnedMatchRow) (n : ℕ) → AllOrNothing (insert_rows now rows n)
unfolding insert_rows
insert_rows-AllOrNothing now [] n = pure-AllOrNothing n
insert_rows-AllOrNothing now (row ∷ rows) n =
    bind-AllOrNothing (execute (insert_or_ignore (stored now row))) _
      (execute-AllOrNothing (insert_or_ignore (stored now row)))
      (λ k. insert_rows-AllOrNothing now rows (n + k))

apply_body-AllOrNothing :
    (now : ℤ) (point : ChainPoint) (rows : List OwnedMatchRow)
    → AllOrNothing (apply_body now point rows)
unfolding apply_body
apply_body-AllOrNothing now point rows =
    bind-AllOrNothing (execute idle) _ (execute-AllOrNothing idle) λ _.
      bind-AllOrNothing (execute idle) _ (execute-AllOrNothing idle) λ _.
        bind-AllOrNothing (insert_rows now rows 0) _ (insert_rows-AllOrNothing now rows 0) λ n.
          bind-AllOrNothing (execute (upsert_cursor point)) _
            (execute-AllOrNothing (upsert_cursor point))
            λ _.
              bind-AllOrNothing (execute idle) _ (execute-AllOrNothing idle)
                λ _. pure-AllOrNothing n

undo_body-AllOrNothing :
    (h : Bytes) (parent : Option ChainPoint) → AllOrNothing (undo_body h parent)
unfolding undo_body
undo_body-AllOrNothing h parent =
    bind-AllOrNothing (execute idle) _ (execute-AllOrNothing idle) λ _.
      bind-AllOrNothing (execute (delete_matches h)) _ (execute-AllOrNothing (delete_matches h))
        λ n.
          bind-AllOrNothing (execute (set_parent parent)) _
            (execute-AllOrNothing (set_parent parent))
            λ _.
              bind-AllOrNothing (execute idle) _ (execute-AllOrNothing idle)
                λ _. pure-AllOrNothing n

-- Whichever statement fails, applying a block and undoing a transaction are atomic: the outcome is
-- that of a run without faults, or an error with the database as it was, rows and cursor.
pub store_atomic :
    (faults : Faults) (db : Db)
    → ((now : ℤ) (point : ChainPoint) (rows : List OwnedMatchRow)
        → (apply_block faults now point rows db ≡ apply_block [] now point rows db)
          ⊎ (apply_block faults now point rows db ≡ (err sqlite, db)))
      × ((h : Bytes) (parent : Option ChainPoint)
          → (undo_tx faults h parent db ≡ undo_tx [] h parent db)
            ⊎ (undo_tx faults h parent db ≡ (err sqlite, db)))
unfolding apply_block undo_tx
store_atomic faults db = (
  λ now point rows.
      transaction_atomic (apply_body now point rows) faults db
        (apply_body-AllOrNothing now point rows),
  λ h parent. transaction_atomic (undo_body h parent) faults db (undo_body-AllOrNothing h parent),
)

-- a key that is there stays there
any-add_row :
    (row key : StoredRow) (ms : List StoredRow)
    → any (same_key key) ms ≡ true
    → any (same_key key) (add_row row ms) ≡ true
any-add_row row key ms h = elim (Bool-cases (any (same_key row) ms)) [
  | inl y ↦ rw y h
  | inr n ↦ rw n (rw (any-append (same_key key) ms (row ∷ []), h))
]

any-add_rows :
    (now : ℤ) (rows : List OwnedMatchRow) (key : StoredRow) (ms : List StoredRow)
    → any (same_key key) ms ≡ true
    → any (same_key key) (add_rows now rows ms) ≡ true
any-add_rows now [] key ms h = h
any-add_rows now (row ∷ rows) key ms h =
    any-add_rows now rows key (add_row (stored now row) ms) (any-add_row (stored now row) key ms h)

same_key_self : (row : StoredRow) → same_key row row ≡ true
same_key_self row = rw (text_ord.cmp_self row.tx_hash, text_ord.cmp_self row.source_name)

added : (row : StoredRow) (ms : List StoredRow) → any (same_key row) (add_row row ms) ≡ true
added row ms = elim (Bool-cases (any (same_key row) ms)) [
  | inl y ↦ rw y y
  | inr n ↦ rw n (rw (any-append (same_key row) ms (row ∷ []), n, same_key_self row))
]

-- rows whose keys are all there change nothing
abbrev AllKnown : ℤ → List StoredRow → List OwnedMatchRow → Type 0
AllKnown now ms rows = All (λ row. any (same_key (stored now row)) ms ≡ true) rows

add_rows-AllKnown :
    (now : ℤ) (rows : List OwnedMatchRow) (ms : List StoredRow)
    → AllKnown now ms rows
    → add_rows now rows ms ≡ ms
add_rows-AllKnown now [] ms h = refl
add_rows-AllKnown now (row ∷ rows) ms h = rw h.0 (add_rows-AllKnown now rows ms h.1)

AllKnown-add_rows :
    (now later : ℤ) (rows : List OwnedMatchRow) (ms : List StoredRow)
    → AllKnown later (add_rows now rows ms) rows
AllKnown-add_rows now later [] ms = tt
AllKnown-add_rows now later (row ∷ rows) ms = (
  any-add_rows now rows (stored later row) (add_row (stored now row) ms)
      (added (stored now row) ms),
  AllKnown-add_rows now later rows (add_row (stored now row) ms),
)

-- Applying the same rows a second time, at whatever time and point, inserts nothing: the count is 0,
-- the rows stay as they are, and only the cursor moves.
pub apply_block_idempotent :
    (now later : ℤ) (point next : ChainPoint) (rows : List OwnedMatchRow) (db : Db)
    → let once = (apply_block [] now point rows db).1 in
      apply_block [] later next rows once ≡ (
        ok 0,
        record once { cursor = some (record { slot = as_i64 next.slot; block_hash = next.hash }) },
      )
apply_block_idempotent now later point next rows db =
    let once = applied now point rows db in
    let known = AllKnown-add_rows now later rows db.matches in
    let same : add_rows later rows once.matches ≡ once.matches =
      add_rows-AllKnown later rows once.matches known in
    rw (apply_block_lem now point rows db) (
      apply_block_lem later next rows once
      ∙ rw same (
          ap
            (λ k. (
              ok k,
              record once {
                cursor = some (record { slot = as_i64 next.slot; block_hash = next.hash });
              },
            ))
            (omega arith)))
