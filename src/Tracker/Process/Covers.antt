-- ===== src/Tracker/Process/Covers.antt =====
-- bin/tracker/src/process.rs, `run_specializations`: a source that matches a transaction has its row.
use mathlib.Core.Path.{subst}
use tx3_lift.Prelude.{
  ℕ, ◌+◌, ◌≤◌, ◌≡◌, refl, sym, ◌∙◌, inl, inr, true, some, List, [], ◌∷◌, Bytes, Text, Result, ok,
  ok_or, map_err, >>=-ok, ok_inj, ap, In, In-append, In-All, All-of_In, clamp_u32, Bool-cases,
}
use tx3_lift.Lift.Tir.{Tx}
use tx3_lift.Lift.Library.{Library}
use tx3_lift.Lift.Payload.{PayloadSummary}
use tx3_lift.Lift.Fingerprint.{Fingerprint, matches, information_score}
use tx3_lift.Lift.Anchors.{hits, gates}
use tx3_lift.Cardano.Ledger.{Pallas, CardanoPayload, CardanoLiftError}
use tx3_lift.Cardano.Summarize.{summarize}
use tx3_lift.Cardano.Matching.{MatchAssignment}
use tx3_lift.Cardano.Lifting.{AssetLibrary, lift}
use tx3_lift.Cardano.Routing.{matcher_match_tx}
use tx3_lift.Tracker.Error.{lift_cardano, json_error}
use tx3_lift.Tracker.Select.{all_matches, Candidate, Ranked, select_matches}
use tx3_lift.Tracker.Select.Selection.{select_matches-IsWinner, select_matches_covers}
use tx3_lift.Tracker.Store.{OwnedMatchRow}
use tx3_lift.Tracker.Specialization.{SpecializedTii}
use tx3_lift.Tracker.Process.{row_of, lift_survivors, run_specializations}
use tx3_lift.Tracker.Candidates.{LiftInputs, candidate_of, collect_txs, collect_candidates}
use tx3_lift.Tracker.Messages.{ProcessLibrary}
use tx3_lift.Tracker.Process.Rows.{IsCandidate, collect_candidates-IsCandidate}

map_err-inj :
    {B : Type 0} (r : Result CardanoLiftError B) (a b : B)
    → r ≡ ok a
    → map_err lift_cardano r ≡ ok b
    → a ≡ b
map_err-inj r a b h e = ok_inj (rw h at e)

module _ (pallas : Pallas) (payload : CardanoPayload) (summary : PayloadSummary)
    (spec : SpecializedTii) (tx_name : Text) (tir : Tx) (fp : Fingerprint)
    (assignment : MatchAssignment) (fits : matches fp summary ≡ true)
    (matched : matcher_match_tx pallas tir payload ≡ ok (some assignment)) where
  -- the candidate of the transaction of the source
  abbrev pub its_score : ℕ
  its_score = clamp_u32 ((hits summary spec.anchors).total + information_score fp)

  abbrev its_candidate : Candidate LiftInputs
  its_candidate = record {
    source_name = spec.name;
    tx_name = tx_name;
    score = its_score;
    payload = record { spec = spec; tir = tir; assignment = assignment };
  }

  collect_txs-covers :
      (txs : List (Text × (Tx × Fingerprint))) (cs : List (Candidate LiftInputs))
      → In (tx_name, (tir, fp)) txs
      → collect_txs pallas payload summary spec (hits summary spec.anchors) txs ≡ ok cs
      → In its_candidate cs
  unfolding collect_txs
  collect_txs-covers [] cs i h = absurd i
  collect_txs-covers ((name, (tx, print)) ∷ txs) cs i h =
      elim (Bool-cases (matches print summary)) [
        | inr n ↦ elim i [
          | inl q ↦
              let bad : matches print summary ≡ true =
                ap (λ t. matches t.1.1 summary) (sym q) ∙ fits in
              cc
          | inr j ↦ collect_txs-covers txs cs j (rw n at h)
        ]
        | inl y ↦
            let (a, h0, h1) =
              >>=-ok (map_err lift_cardano (matcher_match_tx pallas tx payload)) _ cs (rw y at h) in
            let (rest, b, h2) =
              >>=-ok (collect_txs pallas payload summary spec (hits summary spec.anchors) txs) _ cs
                h1 in
            subst (In its_candidate) (ok_inj h2) (
              (In-append _ (candidate_of pallas spec (hits summary spec.anchors) name tx print a)
                  rest).1
                (elim i [
                  | inl q ↦
                      let same : some assignment ≡ a =
                        map_err-inj _ _ _
                          (ap (λ t. matcher_match_tx pallas t.1.0 payload) (sym q) ∙ matched) h0 in
                      inl (
                        subst
                          (λ o.
                            In its_candidate (
                              candidate_of pallas spec (hits summary spec.anchors) name tx print o))
                          same
                          (inl (λ k. record {
                            source_name = spec.name;
                            tx_name = (q k).0;
                            score =
                                clamp_u32
                                  ((hits summary spec.anchors).total + information_score (q k).1.1);
                            payload = record {
                              spec = spec;
                              tir = (q k).1.0;
                              assignment = assignment;
                            };
                          })))
                  | inr j ↦ inr (collect_txs-covers txs rest j b)
                ]))
      ]

  collect_candidates-covers :
      (specs : List SpecializedTii) (cs : List (Candidate LiftInputs))
      → In spec specs
      → gates (hits summary spec.anchors) ≡ true
      → In (tx_name, (tir, fp)) spec.txs
      → collect_candidates pallas payload summary specs ≡ ok cs
      → In its_candidate cs
  unfolding collect_candidates
  collect_candidates-covers [] cs m g i h = absurd m
  collect_candidates-covers (s ∷ specs) cs m g i h =
      elim (Bool-cases (gates (hits summary s.anchors))) [
        | inr n ↦ elim m [
          | inl q ↦
              let bad : gates (hits summary s.anchors) ≡ true =
                ap (λ (t : SpecializedTii). gates (hits summary t.anchors)) (sym q) ∙ g in
              cc
          | inr j ↦ collect_candidates-covers specs cs j g i (rw n at h)
        ]
        | inl y ↦
            let (mine, a, h1) =
              >>=-ok (collect_txs pallas payload summary s (hits summary s.anchors) s.txs) _ cs
                (rw y at h) in
            let (rest, b, h2) = >>=-ok (collect_candidates pallas payload summary specs) _ cs h1 in
            subst (In its_candidate) (ok_inj h2) (
              (In-append _ mine rest).1 (elim m [
                | inl q ↦ inl (
                    collect_txs-covers spec.txs mine i (
                      subst
                        (λ (t : SpecializedTii).
                          collect_txs pallas payload summary t (hits summary t.anchors) t.txs
                          ≡ ok mine)
                        (sym q) a))
                | inr j ↦ inr (collect_candidates-covers specs rest j g i b)
              ]))
      ]

module _ {A : Type 0} (lib : Library) (pallas : Pallas) (assets : AssetLibrary A)
    (process : ProcessLibrary A) (payload : CardanoPayload) (slot : ℕ) (block_hash : Bytes) where
  -- a row with the source and the score of a candidate
  abbrev HasRow : List OwnedMatchRow → Candidate LiftInputs → Type 0
  HasRow rows c =
      (row : OwnedMatchRow) × In row rows
      × (row.source_name ≡ c.payload.spec.name)
      × (row.score ≡ c.score)

  lift_survivors-covers :
      (survivors : List (Ranked LiftInputs)) (rows : List OwnedMatchRow) (r : Ranked LiftInputs)
      → In r survivors
      → lift_survivors lib pallas assets process payload slot block_hash survivors ≡ ok rows
      → HasRow rows r.candidate
  unfolding lift_survivors
  lift_survivors-covers [] rows r m h = absurd m
  lift_survivors-covers (s ∷ survivors) rows r m h =
      let inputs = s.candidate.payload in
      let (lifted, a, h1) =
        >>=-ok
          (map_err lift_cardano (
            lift lib pallas assets inputs.spec.tii s.candidate.tx_name inputs.spec.profile_name
              inputs.tir payload inputs.assignment))
          _ rows h in
      let (json, b, h2) = >>=-ok (ok_or (process.lifted_to_json lifted) json_error) _ rows h1 in
      let (rest, d, h3) =
        >>=-ok (lift_survivors lib pallas assets process payload slot block_hash survivors) _ rows
          h2 in
      let new = row_of lib pallas assets process lifted json slot block_hash s in
      let covered : HasRow (new ∷ rest) r.candidate = elim m [
        | inl q ↦ (
          new,
          inl refl,
          ap (λ (t : Ranked LiftInputs). t.candidate.payload.spec.name) (sym q),
          ap (λ (t : Ranked LiftInputs). t.candidate.score) (sym q),
        )
        | inr j ↦
            let (row, i, p, e) = lift_survivors-covers survivors rest r j d in (row, inr i, p, e)
      ] in
      subst (λ x. HasRow x r.candidate) (ok_inj h3) covered

  -- In mode `all`, where a transaction is processed with success, every source whose anchors gate and
  -- one of whose transactions matches it, in fingerprint and in structure, has a row of its name, and
  -- the score of that row is at least the one of that transaction.
  pub run_specializations-covers :
      (specialized : List SpecializedTii) (rows : List OwnedMatchRow) (summary : PayloadSummary)
      (spec : SpecializedTii) (tx_name : Text) (tir : Tx) (fp : Fingerprint)
      (assignment : MatchAssignment)
      → run_specializations lib pallas assets process specialized payload slot block_hash
          all_matches
        ≡ ok rows
      → summarize pallas payload ≡ ok summary
      → In spec specialized
      → gates (hits summary spec.anchors) ≡ true
      → In (tx_name, (tir, fp)) spec.txs
      → matches fp summary ≡ true
      → matcher_match_tx pallas tir payload ≡ ok (some assignment)
      → (row : OwnedMatchRow) × In row rows
        × (row.source_name ≡ spec.name)
        × (clamp_u32 ((hits summary spec.anchors).total + information_score fp) ≤ row.score)
  unfolding run_specializations
  run_specializations-covers specialized rows summary spec tx_name tir fp assignment h s m g i f a =
      let (summary', s', h1) = >>=-ok (map_err lift_cardano (summarize pallas payload)) _ rows h in
      let same : summary' ≡ summary = sym (map_err-inj _ _ _ s s') in
      let (cs, b, h2) = >>=-ok (collect_candidates pallas payload summary' specialized) _ rows h1 in
      let b' : collect_candidates pallas payload summary specialized ≡ ok cs = rw same at b in
      let mine =
        collect_candidates-covers pallas payload summary spec tx_name tir fp assignment f a
          specialized cs m g i b' in
      let (r, j, q) = (select_matches_covers cs).1 _ mine in
      let winner = select_matches-IsWinner cs all_matches r j in
      let named =
        (In-All (IsCandidate pallas payload summary specialized) cs r.candidate
          (collect_candidates-IsCandidate pallas payload summary specialized specialized cs
            (All-of_In (λ s. In s specialized) specialized (λ s m. m)) b')
          winner.candidate).2 in
      let (row, k, name, score) =
        lift_survivors-covers (select_matches cs all_matches) rows r j h2 in
      (
        row,
        k,
        name ∙ sym named ∙ q,
        subst (λ n. clamp_u32 ((hits summary spec.anchors).total + information_score fp) ≤ n)
            (sym score) (winner.highest _ mine (sym q)),
      )
