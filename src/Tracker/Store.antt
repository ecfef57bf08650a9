-- ===== src/Tracker/Store.antt =====
-- bin/tracker/src/store.rs: the tables `matches` and `cursor`, and the operations on them. The column
-- `id`, which no statement reads, is left out.
pub mod Rows
pub mod Unique
pub mod Cursor
pub mod Refines
mod Tests
use tx3_lift.Prelude.{
  ℕ, suc, ◌+◌, ◌-◌, ℤ, pos, negsuc, Bool, true, not, ◌&&◌, Option, none, some, List, [], ◌∷◌, ◌++◌,
  Bytes, Text, Result, ok, err, any, retain, length, u64_max, leb, ltb, nat_eqb, if◌then◌else◌,
}
use tx3_lift.Prelude.Order.{nat_ord, list_ord, ◌==◌}
use tx3_lift.Tracker.Sql.{SqlError, Faults, Sql, execute, ◌>>=◌, ◌>>◌, pure, idle, transaction}

pub record ChainPoint : Type 0 where
  pub slot : ℕ
  pub hash : Bytes

pub record OwnedMatchRow : Type 0 where
  pub tx_hash : Bytes
  pub block_slot : ℕ
  pub block_hash : Bytes
  pub source_name : Text
  pub protocol_name : Text
  pub tx_name : Text
  pub profile_name : Text
  pub lifted_json : Text
  pub score : ℕ
  pub match_rank : ℕ

-- `MatchRow`, which borrows what `OwnedMatchRow` owns, and `From<MatchRow>`
pub record MatchRow : Type 0 where
  pub tx_hash : Bytes
  pub block_slot : ℕ
  pub block_hash : Bytes
  pub source_name : Text
  pub protocol_name : Text
  pub tx_name : Text
  pub profile_name : Text
  pub lifted_json : Text
  pub score : ℕ
  pub match_rank : ℕ

abbrev pub owned_row : MatchRow → OwnedMatchRow
owned_row r = record {
  tx_hash = r.tx_hash;
  block_slot = r.block_slot;
  block_hash = r.block_hash;
  source_name = r.source_name;
  protocol_name = r.protocol_name;
  tx_name = r.tx_name;
  profile_name = r.profile_name;
  lifted_json = r.lifted_json;
  score = r.score;
  match_rank = r.match_rank;
}

-- a row of the table `matches`
pub record StoredRow : Type 0 where
  pub tx_hash : Bytes
  pub block_slot : ℤ
  pub block_hash : Bytes
  pub source_name : Text
  pub protocol_name : Text
  pub tx_name : Text
  pub profile_name : Text
  pub lifted : Text
  pub matched_at : ℤ
  pub score : ℕ
  pub match_rank : ℕ

-- the one row of the table `cursor`
pub record CursorRow : Type 0 where
  pub slot : ℤ
  pub block_hash : Bytes

pub record Db : Type 0 where
  pub matches : List StoredRow
  pub cursor : Option CursorRow

abbrev i64_max : ℕ
i64_max = 9223372036854775807

-- `n as i64` for a `u64`, and back
abbrev pub as_i64 : ℕ → ℤ
as_i64 n = if leb n i64_max then pos n else negsuc (u64_max - n)

abbrev pub as_u64 : ℤ → ℕ
as_u64 (pos n) = n
as_u64 (negsuc n) = u64_max - n

abbrev pub stored : ℤ → OwnedMatchRow → StoredRow
stored now row = record {
  tx_hash = row.tx_hash;
  block_slot = as_i64 row.block_slot;
  block_hash = row.block_hash;
  source_name = row.source_name;
  protocol_name = row.protocol_name;
  tx_name = row.tx_name;
  profile_name = row.profile_name;
  lifted = row.lifted_json;
  matched_at = now;
  score = row.score;
  match_rank = row.match_rank;
}

-- `UNIQUE(tx_hash, source_name)`
abbrev pub same_key : StoredRow → StoredRow → Bool
same_key a b = (a.tx_hash == b.tx_hash) && (a.source_name == b.source_name)

-- `INSERT OR IGNORE INTO matches …`: the number of rows that changed
abbrev pub insert_or_ignore : StoredRow → Db → ℕ × Db
insert_or_ignore row db =
    if any (same_key row) db.matches
    then (0, db)
    else (1, record db { matches = db.matches ++ row ∷ [] })

-- `INSERT INTO cursor … ON CONFLICT(id) DO UPDATE …`
abbrev pub upsert_cursor : ChainPoint → Db → Unit {0} × Db
upsert_cursor p db =
    (tt, record db { cursor = some (record { slot = as_i64 p.slot; block_hash = p.hash }) })

-- the loop over the rows
pub insert_rows : ℤ → List OwnedMatchRow → ℕ → Sql Db ℕ
insert_rows now [] inserted = pure inserted
insert_rows now (row ∷ rows) inserted = do
  n ← execute (insert_or_ignore (stored now row))
  insert_rows now rows (inserted + n)

pub apply_body : ℤ → ChainPoint → List OwnedMatchRow → Sql Db ℕ
unfolding insert_rows
apply_body now point rows = do
  execute idle
  execute idle
  inserted ← insert_rows now rows 0
  execute (upsert_cursor point)
  execute idle
  pure inserted

unfoldable pub apply_block :
    Faults → ℤ → ChainPoint → List OwnedMatchRow → Db → Result SqlError ℕ × Db
unfolding apply_body
apply_block faults now point rows db = transaction (apply_body now point rows) faults db

-- `DELETE FROM matches WHERE tx_hash = ?`
abbrev pub delete_matches : Bytes → Db → ℕ × Db
delete_matches h db =
    let kept = retain (λ r. not (r.tx_hash == h)) db.matches in
    (length db.matches - length kept, record db { matches = kept })

abbrev pub set_parent : Option ChainPoint → Db → Unit {0} × Db
set_parent (some p) db = upsert_cursor p db
set_parent none db = (tt, record db { cursor = none })

pub undo_body : Bytes → Option ChainPoint → Sql Db ℕ
undo_body h parent = do
  execute idle
  deleted ← execute (delete_matches h)
  execute (set_parent parent)
  execute idle
  pure deleted

unfoldable pub undo_tx : Faults → Bytes → Option ChainPoint → Db → Result SqlError ℕ × Db
unfolding undo_body
undo_tx faults h parent db = transaction (undo_body h parent) faults db

-- `Store::cursor`: a hash that has not 32 bytes counts as no cursor
unfoldable pub read_cursor : Db → Option ChainPoint
read_cursor db = elim db.cursor [
  | none ↦ none
  | some row ↦
      if nat_eqb (length row.block_hash) 32
      then some (record { slot = as_u64 row.slot; hash = row.block_hash })
      else none
]
