-- ===== src/Tracker/Session/Redelivery.antt =====
-- bin/tracker/src/main.rs: a server that sends Apply events again after a reconnect.
use tx3_lift.Prelude.{
  ◌≡◌, refl, ap, ◌∙◌, inl, inr, Bool, false, ◌&&◌, ◌||◌, Option, none, some, List, [], ◌∷◌, Bytes,
  Text, ℤ, Result, ok, err, All, In, In-All, any, any_iff, Bool-cases, arith,
}
use tx3_lift.Prelude.Order.{nat_ord, list_ord, ◌==◌}
use tx3_lift.Lift.Library.{Library}
use tx3_lift.Cardano.Ledger.{Pallas}
use tx3_lift.Cardano.Lifting.{AssetLibrary}
use tx3_lift.Tracker.Error.{TrackerError}
use tx3_lift.Tracker.Store.{ChainPoint, OwnedMatchRow}
use tx3_lift.Tracker.Store.Refines.{Matched, view, specified_apply}
use tx3_lift.Tracker.Specialization.{SpecializedTii}
use tx3_lift.Tracker.Messages.{ProcessLibrary, AnyChainTx}
use tx3_lift.Tracker.Process.{apply_rows}
use tx3_lift.Tracker.Config.{Config}
use tx3_lift.Tracker.Session.{apply, Event, message, State, consume}
use tx3_lift.Tracker.Session.Refines.{
  specified_rows, specified_action, specified_session, IsFaultless, consume-view,
}

-- the pair is one of the rows
abbrev pub has_pair :
    Bytes → Text → Result TrackerError (Option (ChainPoint × List OwnedMatchRow)) → Bool
has_pair tx_hash source (ok (some (point, rows))) =
    any (λ (r : OwnedMatchRow). (r.tx_hash == tx_hash) && (r.source_name == source)) rows
has_pair tx_hash source found = false

specified_rows-pairs :
    (found : Result TrackerError (Option (ChainPoint × List OwnedMatchRow)))
    (rows : Option (ChainPoint × List OwnedMatchRow)) (m : Matched)
    → found ≡ ok rows
    → (m' : Matched) × (specified_rows found m ≡ some m')
      × ((tx_hash : Bytes) (source : Text)
          → m'.is_matched tx_hash source
            ≡ (m.is_matched tx_hash source || has_pair tx_hash source found))
specified_rows-pairs (err e) rows m h = cc
specified_rows-pairs (ok none) rows m h = (m, refl, λ t s. ground arith)
specified_rows-pairs (ok (some (point, rs))) rows m h =
    (specified_apply point rs m, refl, λ t s. refl)

module _ {A : Type 0} (lib : Library) (pallas : Pallas) (assets : AssetLibrary A)
    (process : ProcessLibrary A) (specialized : List SpecializedTii) (cfg : Config) where
  abbrev pub rows_for : AnyChainTx → Result TrackerError (Option (ChainPoint × List OwnedMatchRow))
  rows_for any_tx = apply_rows lib pallas assets process specialized cfg.matching.mode any_tx

  -- the Apply events of the transactions, handled at a time without faults
  abbrev pub deliver : ℤ → List AnyChainTx → List Event
  deliver now [] = []
  deliver now (any_tx ∷ txs) = message (ok (some (some (apply any_tx)))) now [] ∷ deliver now txs

  -- the processing up to the store does not fail
  abbrev pub Succeeds : AnyChainTx → Type 0
  Succeeds any_tx = (rows : Option (ChainPoint × List OwnedMatchRow)) × (rows_for any_tx ≡ ok rows)

  deliver-IsFaultless : (now : ℤ) (txs : List AnyChainTx) → All IsFaultless (deliver now txs)
  deliver-IsFaultless now [] = tt
  deliver-IsFaultless now (any_tx ∷ txs) = (refl, deliver-IsFaultless now txs)

  specified_session-pairs :
      (now : ℤ) (txs : List AnyChainTx) (m : Matched) (tx_hash : Bytes) (source : Text)
      → All Succeeds txs
      → (specified_session lib pallas assets process specialized cfg (deliver now txs) m).is_matched
          tx_hash source
        ≡ (m.is_matched tx_hash source || any (λ x. has_pair tx_hash source (rows_for x)) txs)
  unfolding specified_session specified_action
  specified_session-pairs now [] m tx_hash source h = ground arith
  specified_session-pairs now (any_tx ∷ txs) m tx_hash source ((rows, e), h) =
      let (m', q, pairs) = specified_rows-pairs (rows_for any_tx) rows m e in
      rw q (
        specified_session-pairs now txs m' tx_hash source h
        ∙ rw (pairs tx_hash source) (ground arith))

  consume-pairs :
      (now : ℤ) (txs : List AnyChainTx) (s : State) (tx_hash : Bytes) (source : Text)
      → All Succeeds txs
      → (view
            (consume lib pallas assets process specialized cfg (deliver now txs) s).1.db).is_matched
          tx_hash source
        ≡ ((view s.db).is_matched tx_hash source
            || any (λ x. has_pair tx_hash source (rows_for x)) txs)
  consume-pairs now txs s tx_hash source h =
      ap (λ (m : Matched). m.is_matched tx_hash source)
        (consume-view lib pallas assets process specialized cfg (deliver now txs) s
          (deliver-IsFaultless now txs))
      ∙ specified_session-pairs now txs (view s.db) tx_hash source h

  -- Where neither processing nor a statement fails, and the store is the one that a session of Apply
  -- events left, a session that sends those events once more, some or all, in whatever order and
  -- however often, leaves the set of matched pairs of a transaction and a source as it is.
  pub consume-redelivered :
      (now later : ℤ) (txs again : List AnyChainTx) (s t : State) (tx_hash : Bytes) (source : Text)
      → All Succeeds txs
      → All (λ x. In x txs) again
      → t.db ≡ (consume lib pallas assets process specialized cfg (deliver now txs) s).1.db
      → (view
            (consume lib pallas assets process specialized cfg
              (deliver later again)
              t).1.db).is_matched
          tx_hash source
        ≡ (view t.db).is_matched tx_hash source
  consume-redelivered now later txs again s t tx_hash source h i e =
      let before =
        ap (λ d. (view d).is_matched tx_hash source) e ∙ consume-pairs now txs s tx_hash source h in
      consume-pairs later again t tx_hash source (again-Succeeds again i)
      ∙ elim (Bool-cases (any (λ x. has_pair tx_hash source (rows_for x)) again)) [
        | inr n ↦ rw n (ground arith)
        | inl y ↦
            let (x, j, p) = (any_iff (λ x. has_pair tx_hash source (rows_for x)) again).0 y in
            let there =
              (any_iff (λ x. has_pair tx_hash source (rows_for x)) txs).1
                (x, In-All _ again x i j, p) in
            rw y (rw (before, there) (ground arith))
      ]
    where
      again-Succeeds : (xs : List AnyChainTx) → All (λ x. In x txs) xs → All Succeeds xs
      again-Succeeds [] k = tt
      again-Succeeds (x ∷ xs) k = (In-All Succeeds txs x h k.0, again-Succeeds xs k.1)
