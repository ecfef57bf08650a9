-- ===== src/Tracker/Store/Unique.antt =====
-- The key of the table `matches`, and the rows that an undo leaves.
use tx3_lift.Prelude.{
  ◌-◌, ℤ, ◌≡◌, ◌≢◌, refl, ◌∙◌, ◌↔◌, inl, inr, Bool, true, false, not, Option, none, some, List, [],
  ◌∷◌, ◌++◌, Bytes, ok, any, retain, length, All, All-append, Pairwise, In, In-retain, retain-In,
  Bool-cases, arith,
}
use tx3_lift.Prelude.Order.{nat_ord, list_ord, text_ord, ◌==◌, ==_iff}
use tx3_lift.Tracker.Sql.{Faults}
use tx3_lift.Tracker.Store.{
  ChainPoint, OwnedMatchRow, StoredRow, Db, stored, same_key, apply_block, set_parent, undo_body,
  undo_tx,
}
use tx3_lift.Tracker.Store.Rows.{add_row, add_rows, apply_block_lem, store_atomic}

-- `UNIQUE(tx_hash, source_name)`
abbrev pub IsUnique : Db → Type 0
IsUnique db = Pairwise (λ a b. same_key a b ≡ false) db.matches

same_key_comm : (a b : StoredRow) → same_key a b ≡ same_key b a
same_key_comm a b =
    ground
      (arith, text_ord.cmp_swap a.tx_hash b.tx_hash, text_ord.cmp_swap a.source_name b.source_name)

append-Pairwise :
    (ms : List StoredRow) (row : StoredRow)
    → any (same_key row) ms ≡ false
    → Pairwise (λ a b. same_key a b ≡ false) ms
    → Pairwise (λ a b. same_key a b ≡ false) (ms ++ row ∷ [])
append-Pairwise [] row n p = (tt, tt)
append-Pairwise (m ∷ ms) row n p = (
  All-append (λ b. same_key m b ≡ false) ms (row ∷ []) p.0 (same_key_comm m row ∙ ground arith, tt),
  append-Pairwise ms row (ground arith) p.1,
)

add_rows-Pairwise :
    (now : ℤ) (rows : List OwnedMatchRow) (ms : List StoredRow)
    → Pairwise (λ a b. same_key a b ≡ false) ms
    → Pairwise (λ a b. same_key a b ≡ false) (add_rows now rows ms)
add_rows-Pairwise now [] ms p = p
add_rows-Pairwise now (row ∷ rows) ms p =
    add_rows-Pairwise now rows (add_row (stored now row) ms)
      (elim (Bool-cases (any (same_key (stored now row)) ms)) [
        | inl y ↦ rw y p
        | inr n ↦ rw n (append-Pairwise ms (stored now row) n p)
      ])

All-retain {κ} :
    (P : StoredRow → Type κ) (p : StoredRow → Bool) (xs : List StoredRow)
    → All P xs
    → All P (retain p xs)
All-retain P p [] h = tt
All-retain P p (x ∷ xs) h = ground (arith, All-retain P p xs h.1)

retain-Pairwise :
    (R : StoredRow → StoredRow → Type 0) (p : StoredRow → Bool) (xs : List StoredRow)
    → Pairwise R xs
    → Pairwise R (retain p xs)
retain-Pairwise R p [] h = tt
retain-Pairwise R p (x ∷ xs) h =
    ground (arith, All-retain (R x) p xs h.0, retain-Pairwise R p xs h.1)

pub undo_tx_lem :
    (h : Bytes) (parent : Option ChainPoint) (db : Db)
    → undo_tx [] h parent db ≡ (
      ok (length db.matches - length (retain (λ r. not (r.tx_hash == h)) db.matches)),
      (set_parent parent (record db { matches = retain (λ r. not (r.tx_hash == h)) db.matches })).1,
    )
unfolding undo_tx undo_body
undo_tx_lem h parent db = refl

set_parent-matches :
    (parent : Option ChainPoint) (db : Db) → (set_parent parent db).1.matches ≡ db.matches
set_parent-matches none db = refl
set_parent-matches (some p) db = refl

-- No two rows share transaction hash and source: applying a block and undoing a transaction keep
-- that, whatever statements fail.
pub store-IsUnique :
    (faults : Faults) (db : Db)
    → IsUnique db
    → ((now : ℤ) (point : ChainPoint) (rows : List OwnedMatchRow)
        → IsUnique (apply_block faults now point rows db).1)
      × ((h : Bytes) (parent : Option ChainPoint) → IsUnique (undo_tx faults h parent db).1)
store-IsUnique faults db u = (
  λ now point rows. elim ((store_atomic faults db).0 now point rows) [
    | inl e ↦ rw (e ∙ apply_block_lem now point rows db) (add_rows-Pairwise now rows db.matches u)
    | inr e ↦ rw e u
  ],
  λ h parent. elim ((store_atomic faults db).1 h parent) [
    | inl e ↦ rw (e ∙ undo_tx_lem h parent db) (
        rw
          (set_parent-matches parent
            (record db { matches = retain (λ r. not (r.tx_hash == h)) db.matches }))
          (retain-Pairwise (λ a b. same_key a b ≡ false) (λ r. not (r.tx_hash == h)) db.matches u))
    | inr e ↦ rw e u
  ],
)

not_eq : (a b : Bytes) → a ≢ b → not (a == b) ≡ true
not_eq a b n = elim (Bool-cases (a == b)) [ inl e ↦ absurd (n ((==_iff a b).0 e)) | inr f ↦ rw f ]

-- Undoing a transaction leaves exactly the rows of the other transactions.
pub undo_tx-In :
    (h : Bytes) (parent : Option ChainPoint) (db : Db) (row : StoredRow)
    → In row (undo_tx [] h parent db).1.matches ↔ (In row db.matches × (row.tx_hash ≢ h))
undo_tx-In h parent db row =
    let kept = record db { matches = retain (λ r. not (r.tx_hash == h)) db.matches } in
    rw (undo_tx_lem h parent db) (
      rw (set_parent-matches parent kept) (
        λ m.
            let (i, q) = In-retain (λ r. not (r.tx_hash == h)) db.matches row m in
            (i, λ e. cc ((==_iff row.tx_hash h).1 e)),
        λ (i, n). retain-In (λ r. not (r.tx_hash == h)) db.matches row i (not_eq row.tx_hash h n),
      ))
