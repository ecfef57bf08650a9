-- ===== src/Tracker/Store/Refines.antt =====
-- bin/tracker/src/store.rs: the store as a set of pairs of a transaction and a source, with a cursor.
use mathlib.Core.Path.{fun_ext}
use tx3_lift.Prelude.{
  ◌≡◌, refl, ap, ◌∙◌, inl, inr, ℤ, Bool, true, false, not, ◌&&◌, ◌||◌, Option, none, some, List, [],
  ◌∷◌, Bytes, Text, any, any-append, retain, Bool-cases, &&_iff, arith,
}
use tx3_lift.Prelude.Order.{nat_ord, list_ord, ◌==◌, ==_iff}
use tx3_lift.Tracker.Store.{
  ChainPoint, OwnedMatchRow, StoredRow, CursorRow, Db, stored, same_key, as_i64, apply_block,
  set_parent, undo_tx,
}
use tx3_lift.Tracker.Store.Rows.{add_row, add_rows, apply_block_lem}
use tx3_lift.Tracker.Store.Unique.{undo_tx_lem}

-- which pairs are matched, and where the store stands
pub record Matched : Type 0 where
  pub is_matched : Bytes → Text → Bool
  pub point : Option CursorRow

abbrev pub is_pair : Bytes → Text → StoredRow → Bool
is_pair tx_hash source r = (r.tx_hash == tx_hash) && (r.source_name == source)

abbrev pub view : Db → Matched
view db = record {
  is_matched = λ tx_hash source. any (is_pair tx_hash source) db.matches;
  point = db.cursor;
}

-- the pairs of the rows are added
abbrev pub specified_apply : ChainPoint → List OwnedMatchRow → Matched → Matched
specified_apply p rows m = record {
  is_matched = λ tx_hash source.
      m.is_matched tx_hash source
      || any (λ (r : OwnedMatchRow). (r.tx_hash == tx_hash) && (r.source_name == source)) rows;
  point = some (record { slot = as_i64 p.slot; block_hash = p.hash });
}

-- the pairs of the transaction are removed
abbrev pub specified_undo : Bytes → Option ChainPoint → Matched → Matched
specified_undo h parent m = record {
  is_matched = λ tx_hash source. not (tx_hash == h) && m.is_matched tx_hash source;
  point = elim parent [
    | none ↦ none
    | some p ↦ some (record { slot = as_i64 p.slot; block_hash = p.hash })
  ];
}

known :
    (row : StoredRow) (tx_hash : Bytes) (source : Text) (ms : List StoredRow)
    → any (same_key row) ms ≡ true
    → is_pair tx_hash source row ≡ true
    → any (is_pair tx_hash source) ms ≡ true
known row tx_hash source [] h k = cc
known row tx_hash source (m ∷ ms) h k = elim (Bool-cases (same_key row m)) [
  | inl y ↦
      let (a, b) = (&&_iff _ _).0 y in
      let pair : is_pair tx_hash source m ≡ true =
        rw (← (==_iff row.tx_hash m.tx_hash).0 a, ← (==_iff row.source_name m.source_name).0 b) k in
      rw pair refl
  | inr n ↦ rw (known row tx_hash source ms (rw n at h) k) (ground arith)
]

any-add_row :
    (row : StoredRow) (tx_hash : Bytes) (source : Text) (ms : List StoredRow)
    → any (is_pair tx_hash source) (add_row row ms)
      ≡ any (is_pair tx_hash source) ms || is_pair tx_hash source row
any-add_row row tx_hash source ms = elim (Bool-cases (any (same_key row) ms)) [
  | inl y ↦ rw y (elim (Bool-cases (is_pair tx_hash source row)) [
    | inl p ↦ rw (p, known row tx_hash source ms y p) refl
    | inr n ↦ rw n (ground arith)
  ])
  | inr n ↦ rw n (rw (any-append (is_pair tx_hash source) ms (row ∷ [])) (ground arith))
]

any-add_rows :
    (now : ℤ) (rows : List OwnedMatchRow) (tx_hash : Bytes) (source : Text) (ms : List StoredRow)
    → any (is_pair tx_hash source) (add_rows now rows ms)
      ≡ any (is_pair tx_hash source) ms
        || any (λ (r : OwnedMatchRow). (r.tx_hash == tx_hash) && (r.source_name == source)) rows
any-add_rows now [] tx_hash source ms = ground arith
any-add_rows now (row ∷ rows) tx_hash source ms =
    any-add_rows now rows tx_hash source (add_row (stored now row) ms)
    ∙ rw (any-add_row (stored now row) tx_hash source ms) (ground arith)

any-retain :
    (h tx_hash : Bytes) (source : Text) (ms : List StoredRow)
    → any (is_pair tx_hash source) (retain (λ r. not (r.tx_hash == h)) ms)
      ≡ not (tx_hash == h) && any (is_pair tx_hash source) ms
any-retain h tx_hash source [] = ground arith
any-retain h tx_hash source (m ∷ ms) =
    let rest = any-retain h tx_hash source ms in
    elim (Bool-cases (m.tx_hash == h)) [
      | inr n ↦ elim (Bool-cases (m.tx_hash == tx_hash)) [
        | inl y ↦
            let other : (tx_hash == h) ≡ false = rw ((==_iff m.tx_hash tx_hash).0 y) at n in
            rw n (rw (rest, other) refl)
        | inr z ↦ rw n (rw (rest, z) refl)
      ]
      | inl y ↦ elim (Bool-cases (m.tx_hash == tx_hash)) [
        | inl z ↦
            let same : (tx_hash == h) ≡ true = rw ((==_iff m.tx_hash tx_hash).0 z) at y in
            rw y (rw (rest, same) refl)
        | inr z ↦ rw y (rw (rest, z) refl)
      ]
    ]

set_parent-view :
    (parent : Option ChainPoint) (db : Db)
    → view (set_parent parent db).1 ≡ record (view db) {
      point = elim parent [
        | none ↦ none
        | some p ↦ some (record { slot = as_i64 p.slot; block_hash = p.hash })
      ];
    }
set_parent-view none db = refl
set_parent-view (some p) db = refl

-- Seen as a set of pairs of transaction hash and source with a cursor, applying a block adds the
-- pairs of its rows and undoing a transaction removes those of its hash, whatever order, times, scores
-- and duplicates the table has.
pub store-view :
    (db : Db)
    → ((now : ℤ) (p : ChainPoint) (rows : List OwnedMatchRow)
        → view (apply_block [] now p rows db).1 ≡ specified_apply p rows (view db))
      × ((h : Bytes) (parent : Option ChainPoint)
          → view (undo_tx [] h parent db).1 ≡ specified_undo h parent (view db))
store-view db = (
  λ now p rows. rw (apply_block_lem now p rows db) (
      ap
        (λ f. record {
          is_matched = f;
          point = some (record { slot = as_i64 p.slot; block_hash = p.hash });
        })
        (fun_ext λ t. fun_ext λ s. any-add_rows now rows t s db.matches)),
  λ h parent. rw (undo_tx_lem h parent db) (
      set_parent-view parent (record db { matches = retain (λ r. not (r.tx_hash == h)) db.matches })
      ∙ ap
          (λ f. record {
            is_matched = f;
            point = elim parent [
              | none ↦ none
              | some p ↦ some (record { slot = as_i64 p.slot; block_hash = p.hash })
            ];
          })
          (fun_ext λ t. fun_ext λ s. any-retain h t s db.matches)),
)
