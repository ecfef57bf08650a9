-- ===== src/Tracker/Store/Tests.antt =====
-- Runs on a small store: one row is there, and a block with that row again and a new one comes.
use tx3_lift.Prelude.{
  ℕ, pos, ◌≡◌, refl, ◌⊎◌, true, false, none, some, [], ◌∷◌, Bytes, ok, err, arith,
}
use tx3_lift.Tracker.Sql.{sqlite}
use tx3_lift.Tracker.Store.{ChainPoint, OwnedMatchRow, Db, stored, apply_block, read_cursor}
use tx3_lift.Tracker.Store.Rows.{store_atomic}
use tx3_lift.Tracker.Store.Unique.{IsUnique, store-IsUnique}
use tx3_lift.Tracker.Store.Cursor.{read_cursor_roundtrip}

abbrev zeros : Bytes
zeros =
    0 ∷ 0 ∷ 0 ∷ 0 ∷ 0 ∷ 0 ∷ 0 ∷ 0 ∷ 0 ∷ 0 ∷ 0 ∷ 0 ∷ 0 ∷ 0 ∷ 0 ∷ 0 ∷ 0 ∷ 0 ∷ 0 ∷ 0 ∷ 0 ∷ 0 ∷ 0 ∷ 0
    ∷ 0 ∷ 0 ∷ 0 ∷ 0 ∷ 0 ∷ 0 ∷ 0 ∷ 0 ∷ []

abbrev point : ChainPoint
point = record { slot = 18446744073709551615; hash = zeros }

abbrev row_of : ℕ → OwnedMatchRow
row_of n = record {
  tx_hash = n ∷ [];
  block_slot = 7;
  block_hash = zeros;
  source_name = 97 ∷ [];
  protocol_name = [];
  tx_name = [];
  profile_name = [];
  lifted_json = [];
  score = 2;
  match_rank = 1;
}

abbrev one_row : Db
one_row = record { matches = stored (pos 5) (row_of 1) ∷ []; cursor = none }

-- the statement that inserts the second row fails, so the first insert goes too
failed_apply :
    apply_block (false ∷ false ∷ false ∷ true ∷ []) (pos 9) point (row_of 2 ∷ row_of 3 ∷ []) one_row
    ≡ (err sqlite, one_row)
unfolding apply_block
failed_apply = refl

-- the known row is ignored
second_apply : (apply_block [] (pos 9) point (row_of 1 ∷ row_of 2 ∷ []) one_row).0 ≡ ok 1
unfolding apply_block
second_apply = refl

store_atomic_example :
    (apply_block (false ∷ true ∷ []) (pos 9) point (row_of 2 ∷ []) one_row
      ≡ apply_block [] (pos 9) point (row_of 2 ∷ []) one_row)
    ⊎ (apply_block (false ∷ true ∷ []) (pos 9) point (row_of 2 ∷ []) one_row
        ≡ (err sqlite, one_row))
store_atomic_example = (store_atomic (false ∷ true ∷ []) one_row).0 (pos 9) point (row_of 2 ∷ [])

store-IsUnique_example :
    IsUnique (apply_block [] (pos 9) point (row_of 1 ∷ row_of 2 ∷ []) one_row).1
store-IsUnique_example =
    (store-IsUnique [] one_row (tt, tt)).0 (pos 9) point (row_of 1 ∷ row_of 2 ∷ [])

read_cursor_roundtrip_example :
    read_cursor (apply_block [] (pos 9) point (row_of 2 ∷ []) one_row).1 ≡ some point
read_cursor_roundtrip_example =
    (read_cursor_roundtrip point one_row refl (omega arith)).0 (pos 9) (row_of 2 ∷ [])
