-- ===== src/Tracker/Process/Rows.antt =====
-- bin/tracker/src/process.rs, `run_specializations`: where each row comes from.
use mathlib.Core.Path.{subst}
use tx3_lift.Prelude.{
  ℕ, ◌+◌, ◌≡◌, refl, ap, inl, inr, true, Option, none, some, List, [], ◌∷◌, Bytes, Text, Result, ok,
  err, ok_or, map_err, >>=-ok, ok_inj, All, All-append, In, In-All, All-of_In, clamp_u32,
  Bool-cases,
}
use tx3_lift.Lift.Tir.{Tx}
use tx3_lift.Lift.Library.{Library}
use tx3_lift.Lift.Payload.{PayloadSummary}
use tx3_lift.Lift.Lifted.{Lifted}
use tx3_lift.Lift.Fingerprint.{Fingerprint, matches, information_score}
use tx3_lift.Lift.Anchors.{hits, gates}
use tx3_lift.Cardano.Ledger.{LedgerTx, Pallas, CardanoPayload, CardanoLiftError}
use tx3_lift.Cardano.Summarize.{summarize}
use tx3_lift.Cardano.Matching.{MatchAssignment}
use tx3_lift.Cardano.Lifting.{AssetLibrary, lift}
use tx3_lift.Cardano.Lifting.Parts.{lift-Parts}
use tx3_lift.Cardano.Routing.{matcher_match_tx}
use tx3_lift.Tracker.Error.{lift_cardano, json_error}
use tx3_lift.Tracker.Select.{MatchMode, Candidate, Ranked, select_matches}
use tx3_lift.Tracker.Select.Selection.{select_matches-IsWinner}
use tx3_lift.Tracker.Store.{OwnedMatchRow}
use tx3_lift.Tracker.Specialization.{SpecializedTii}
use tx3_lift.Tracker.Process.{row_of, lift_survivors, run_specializations}
use tx3_lift.Tracker.Candidates.{LiftInputs, candidate_of, collect_txs, collect_candidates}
use tx3_lift.Tracker.Messages.{ProcessLibrary}

pub map_err-ok :
    {B : Type 0} (r : Result CardanoLiftError B) (b : B) → map_err lift_cardano r ≡ ok b → r ≡ ok b
map_err-ok (ok a) b e = ap ok (ok_inj e)
map_err-ok (err x) b e = cc

ok_or-some : {B : Type 0} (o : Option B) (b : B) → ok_or o json_error ≡ ok b → o ≡ some b
ok_or-some (some a) b e = ap some (ok_inj e)
ok_or-some none b e = cc

module _ (pallas : Pallas) (payload : CardanoPayload) (summary : PayloadSummary) where
  -- a candidate of a source that passes the gate, for one of its transactions whose fingerprint and
  -- structure match
  abbrev pub IsCandidate : List SpecializedTii → Candidate LiftInputs → Type 0
  IsCandidate specialized c =
      let found = hits summary c.payload.spec.anchors in
      In c.payload.spec specialized
      × (gates found ≡ true)
      × (c.source_name ≡ c.payload.spec.name)
      × (matcher_match_tx pallas c.payload.tir payload ≡ ok (some c.payload.assignment))
      × ((fp : Fingerprint) × In (c.tx_name, (c.payload.tir, fp)) c.payload.spec.txs
          × (matches fp summary ≡ true)
          × (c.score ≡ clamp_u32 (found.total + information_score fp)))

  module _ (specialized : List SpecializedTii) (spec : SpecializedTii)
      (member : In spec specialized) (gated : gates (hits summary spec.anchors) ≡ true) where
    candidate_of-IsCandidate :
        (tx_name : Text) (tir : Tx) (fp : Fingerprint) (assignment : Option MatchAssignment)
        → In (tx_name, (tir, fp)) spec.txs
        → matches fp summary ≡ true
        → matcher_match_tx pallas tir payload ≡ ok assignment
        → All
            (IsCandidate specialized)
            (candidate_of pallas spec (hits summary spec.anchors) tx_name tir fp assignment)
    candidate_of-IsCandidate tx_name tir fp none i m a = tt
    candidate_of-IsCandidate tx_name tir fp (some assignment) i m a =
        ((member, gated, refl, a, (fp, i, m, refl)), tt)

    collect_txs-IsCandidate :
        (txs : List (Text × (Tx × Fingerprint))) (cs : List (Candidate LiftInputs))
        → All (λ t. In t spec.txs) txs
        → collect_txs pallas payload summary spec (hits summary spec.anchors) txs ≡ ok cs
        → All (IsCandidate specialized) cs
    unfolding collect_txs
    collect_txs-IsCandidate [] cs i h = subst (All (IsCandidate specialized)) (ok_inj h) tt
    collect_txs-IsCandidate ((tx_name, (tir, fp)) ∷ txs) cs i h =
        elim (Bool-cases (matches fp summary)) [
          | inr n ↦ collect_txs-IsCandidate txs cs i.1 (rw n at h)
          | inl y ↦
              let (assignment, a, h1) =
                >>=-ok (map_err lift_cardano (matcher_match_tx pallas tir payload)) _ cs
                  (rw y at h) in
              let (rest, b, h2) =
                >>=-ok (collect_txs pallas payload summary spec (hits summary spec.anchors) txs) _
                  cs h1 in
              let mine =
                candidate_of-IsCandidate tx_name tir fp assignment i.0 y
                  (map_err-ok _ assignment a) in
              subst (All (IsCandidate specialized)) (ok_inj h2) (
                All-append (IsCandidate specialized) _ rest mine
                  (collect_txs-IsCandidate txs rest i.1 b))
        ]

  pub collect_candidates-IsCandidate :
      (all specs : List SpecializedTii) (cs : List (Candidate LiftInputs))
      → All (λ s. In s all) specs
      → collect_candidates pallas payload summary specs ≡ ok cs
      → All (IsCandidate all) cs
  unfolding collect_candidates
  collect_candidates-IsCandidate all [] cs i h = subst (All (IsCandidate all)) (ok_inj h) tt
  collect_candidates-IsCandidate all (spec ∷ specs) cs i h =
      elim (Bool-cases (gates (hits summary spec.anchors))) [
        | inr n ↦ collect_candidates-IsCandidate all specs cs i.1 (rw n at h)
        | inl y ↦
            let (mine, a, h1) =
              >>=-ok (collect_txs pallas payload summary spec (hits summary spec.anchors) spec.txs)
                _ cs (rw y at h) in
            let (rest, b, h2) = >>=-ok (collect_candidates pallas payload summary specs) _ cs h1 in
            subst (All (IsCandidate all)) (ok_inj h2) (
              All-append (IsCandidate all) mine rest
                (collect_txs-IsCandidate all spec i.0 y spec.txs mine
                  (All-of_In (λ t. In t spec.txs) spec.txs (λ t m. m)) a)
                (collect_candidates-IsCandidate all specs rest i.1 b))
      ]

module _ {A : Type 0} (lib : Library) (pallas : Pallas) (assets : AssetLibrary A)
    (process : ProcessLibrary A) (payload : CardanoPayload) (slot : ℕ) (block_hash : Bytes) where
  -- the row of a ranked candidate, which is what its lift says: the hash is that of the decoded
  -- transaction, and the names are those of the candidate's TII file, transaction and profile
  abbrev pub IsRowOf : OwnedMatchRow → Ranked LiftInputs → Type 0
  IsRowOf row r =
      let c = r.candidate in
      (tx : LedgerTx) × (lifted : Lifted A) × (pallas.decode_tx payload.raw ≡ some tx)
      × (lift lib pallas assets c.payload.spec.tii c.tx_name c.payload.spec.profile_name
            c.payload.tir payload c.payload.assignment
          ≡ ok lifted)
      × (process.lifted_to_json lifted ≡ some row.lifted_json)
      × (row.tx_hash ≡ lifted.tx_id)
      × (row.tx_hash ≡ tx.hash)
      × (row.source_name ≡ c.payload.spec.name)
      × (row.protocol_name ≡ c.payload.spec.tii.protocol_name)
      × (row.tx_name ≡ c.tx_name)
      × (row.profile_name ≡ c.payload.spec.profile_name)
      × (row.score ≡ c.score)
      × (row.match_rank ≡ r.match_rank)
      × (row.block_slot ≡ slot)
      × (row.block_hash ≡ block_hash)

  -- each row has a ranked candidate with the property
  abbrev pub AllRows : (Ranked LiftInputs → Type 0) → List OwnedMatchRow → Type 0
  AllRows P rows = All (λ row. (r : Ranked LiftInputs) × P r × IsRowOf row r) rows

  row_of-IsRowOf :
      (r : Ranked LiftInputs) (lifted : Lifted A) (json : Text)
      → lift lib pallas assets r.candidate.payload.spec.tii r.candidate.tx_name
          r.candidate.payload.spec.profile_name r.candidate.payload.tir payload
          r.candidate.payload.assignment
        ≡ ok lifted
      → process.lifted_to_json lifted ≡ some json
      → IsRowOf (row_of lib pallas assets process lifted json slot block_hash r) r
  row_of-IsRowOf r lifted json h j =
      let parts =
        lift-Parts lib pallas assets r.candidate.payload.spec.tii r.candidate.tx_name
          r.candidate.payload.spec.profile_name r.candidate.payload.tir payload
          r.candidate.payload.assignment lifted h in
      (
        parts.tx, lifted, parts.decodes, h, j, refl, parts.tx_id_field, refl,
        parts.protocol_name_field, parts.tx_name_field, parts.profile_name_field, refl, refl, refl,
        refl,
      )

  lift_survivors-IsRowOf :
      (P : Ranked LiftInputs → Type 0) (survivors : List (Ranked LiftInputs))
      (rows : List OwnedMatchRow)
      → All P survivors
      → lift_survivors lib pallas assets process payload slot block_hash survivors ≡ ok rows
      → AllRows P rows
  unfolding lift_survivors
  lift_survivors-IsRowOf P [] rows p h = subst (AllRows P) (ok_inj h) tt
  lift_survivors-IsRowOf P (r ∷ survivors) rows p h =
      let (lifted, a, h1) = >>=-ok (map_err lift_cardano _) _ rows h in
      let (json, b, h2) = >>=-ok (ok_or (process.lifted_to_json lifted) json_error) _ rows h1 in
      let (rest, d, h3) =
        >>=-ok (lift_survivors lib pallas assets process payload slot block_hash survivors) _ rows
          h2 in
      let all : AllRows P (row_of lib pallas assets process lifted json slot block_hash r ∷ rest) =
        (
          (r, p.0, row_of-IsRowOf r lifted json (map_err-ok _ lifted a) (ok_or-some _ json b)),
          lift_survivors-IsRowOf P survivors rest p.1 d,
        ) in
      subst (AllRows P) (ok_inj h3) all

  -- Where a transaction is processed with success, every row comes from a ranked candidate that the
  -- selection keeps, of a source in the list whose anchors gate and of one of its transactions, whose
  -- fingerprint and structure match. The lift with that assignment succeeds and is the stored JSON. The
  -- row's hash is that of the decoded transaction, slot and block hash are the block's, the names are
  -- those of the source, its protocol, the transaction and the profile, and score and rank are those
  -- of the ranked candidate.
  pub run_specializations-IsRowOf :
      (specialized : List SpecializedTii) (mode : MatchMode) (rows : List OwnedMatchRow)
      → run_specializations lib pallas assets process specialized payload slot block_hash mode
        ≡ ok rows
      → (summary : PayloadSummary) × (cs : List (Candidate LiftInputs)) × (summarize pallas payload
          ≡ ok summary)
        × (collect_candidates pallas payload summary specialized ≡ ok cs)
        × AllRows
            (λ r.
              In r (select_matches cs mode)
              × IsCandidate pallas payload summary specialized r.candidate)
            rows
  unfolding run_specializations
  run_specializations-IsRowOf specialized mode rows h =
      let (summary, a, h1) = >>=-ok (map_err lift_cardano (summarize pallas payload)) _ rows h in
      let (cs, b, h2) = >>=-ok (collect_candidates pallas payload summary specialized) _ rows h1 in
      let found =
        collect_candidates-IsCandidate pallas payload summary specialized specialized cs
          (All-of_In (λ s. In s specialized) specialized (λ s m. m)) b in
      (
        summary,
        cs,
        map_err-ok _ summary a,
        b,
        lift_survivors-IsRowOf
            (λ r.
              In r (select_matches cs mode)
              × IsCandidate pallas payload summary specialized r.candidate)
            (select_matches cs mode) rows
            (All-of_In _ (select_matches cs mode) λ r m. (
              m,
              In-All (IsCandidate pallas payload summary specialized) cs r.candidate found
                  (select_matches-IsWinner cs mode r m).candidate,
            ))
            h2,
      )
