-- ===== src/Tracker/Store/Cursor.antt =====
-- The cursor in the store: what an operation writes is what the next start reads.
use tx3_lift.Prelude.{
  ℕ, ◌≤◌, ℤ, ◌≡◌, refl, ap, ◌∙◌, none, some, Bytes, length, u64_max, List, [], arith, retain, not,
}
use tx3_lift.Prelude.Order.{◌==◌, list_ord, nat_ord}
use tx3_lift.Tracker.Store.{
  ChainPoint, OwnedMatchRow, StoredRow, Db, as_i64, as_u64, apply_block, undo_tx, read_cursor,
}
use tx3_lift.Tracker.Store.Rows.{apply_block_lem, applied}
use tx3_lift.Tracker.Store.Unique.{undo_tx_lem}

-- `n as i64 as u64` is `n`
as_u64-as_i64 : (n : ℕ) → n ≤ u64_max → as_u64 (as_i64 n) ≡ n
as_u64-as_i64 n h = ground arith

read_cursor-upsert :
    (p : ChainPoint) (ms : List StoredRow)
    → length p.hash ≡ 32
    → p.slot ≤ u64_max
    → read_cursor (record {
      matches = ms;
      cursor = some (record { slot = as_i64 p.slot; block_hash = p.hash });
    })
      ≡ some p
unfolding read_cursor
read_cursor-upsert p ms h b = rw (h, as_u64-as_i64 p.slot b) refl

-- For a point with a 32-byte hash and a `u64` slot, the cursor read after a block was applied at that
-- point, or a transaction undone with that point as parent, is the point: slots above `i64::MAX`
-- survive the signed column. An undo without a parent leaves no cursor.
pub read_cursor_roundtrip :
    (p : ChainPoint) (db : Db)
    → length p.hash ≡ 32
    → p.slot ≤ u64_max
    → ((now : ℤ) (rows : List OwnedMatchRow)
        → read_cursor (apply_block [] now p rows db).1 ≡ some p)
      × ((h : Bytes) → read_cursor (undo_tx [] h (some p) db).1 ≡ some p)
      × ((h : Bytes) → read_cursor (undo_tx [] h none db).1 ≡ none)
unfolding read_cursor
read_cursor_roundtrip p db h b = (
  λ now rows.
      ap (λ r. read_cursor r.1) (apply_block_lem now p rows db)
      ∙ read_cursor-upsert p (applied now p rows db).matches h b,
  λ t.
      ap (λ r. read_cursor r.1) (undo_tx_lem t (some p) db)
      ∙ read_cursor-upsert p (retain (λ r. not (r.tx_hash == t)) db.matches) h b,
  λ t. ap (λ r. read_cursor r.1) (undo_tx_lem t none db),
)
