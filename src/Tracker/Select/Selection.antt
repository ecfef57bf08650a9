-- ===== src/Tracker/Select/Selection.antt =====
-- What `select_matches` promises, for every list of candidates. `u32_max` bounds their number, since
-- a rank is a `u32`.
use mathlib.Core.Path.{subst}
use tx3_lift.Prelude.{
  ℕ, ◌≤◌, ◌<◌, ◌≡◌, ap, sym, ◌∙◌, ◌↔◌, none, List, [], ◌∷◌, map, In, In-map, In-map_inv, Pairwise,
  length, u32_max, arith, In-retain, retain-In, All-imp,
}
use tx3_lift.Tracker.Select.{
  Candidate, Ranked, MatchMode, all_matches, best, select_matches, survivors, assign_ranks,
  keep_mode,
}
use tx3_lift.Tracker.Select.Winners.{IsWinner}
use tx3_lift.Tracker.Select.Order.{
  Before, survivors_ordered, survivors-IsWinner, survivors_unique, survivors_complete,
  length-survivors-le,
}
use tx3_lift.Tracker.Select.Ranks.{map-assign_ranks, Descending, rank_iff, rank_gapless, rank_pos}

module _ {T : Type 0} where
  keep_mode-In :
      (mode : MatchMode) (ranked : List (Ranked T)) (r : Ranked T)
      → In r (keep_mode mode ranked)
      → In r ranked
  keep_mode-In all_matches ranked r m = m
  keep_mode-In best ranked r m = (In-retain _ ranked r m).0

  row-survivor :
      (candidates : List (Candidate T)) (r : Ranked T)
      → In r (assign_ranks 0 none (survivors candidates))
      → In r.candidate (survivors candidates)
  row-survivor candidates r m =
      subst (In r.candidate) (map-assign_ranks 0 none (survivors candidates))
        (In-map (λ r. r.candidate) _ r m)

  survivor-row :
      (candidates : List (Candidate T)) (w : Candidate T)
      → In w (survivors candidates)
      → (r : Ranked T) × In r (assign_ranks 0 none (survivors candidates)) × (w ≡ r.candidate)
  survivor-row candidates w m =
      In-map_inv (λ r. r.candidate) _ w
        (subst (In w) (sym (map-assign_ranks 0 none (survivors candidates))) m)

  descending : (xs : List (Candidate T)) → Pairwise Before xs → Descending xs
  descending [] p = tt
  descending (x ∷ xs) p = (All-imp (λ y h. omega arith) xs p.0, descending xs p.1)

  survivors-Descending : (candidates : List (Candidate T)) → Descending (survivors candidates)
  survivors-Descending candidates = descending _ (survivors_ordered candidates)

  survivors-bound :
      (candidates : List (Candidate T))
      → length candidates ≤ u32_max
      → length (survivors candidates) ≤ u32_max
  survivors-bound candidates b = omega (arith, length-survivors-le candidates)

  select_row :
      (candidates : List (Candidate T)) (mode : MatchMode) (r : Ranked T)
      → In r (select_matches candidates mode)
      → In r (assign_ranks 0 none (survivors candidates))
  unfolding select_matches
  select_row candidates mode r m = keep_mode-In mode _ r m

  -- Every row, in either mode, carries one of the candidates, and no candidate of the same source
  -- has a higher score, or the same score and an earlier `tx_name`.
  pub select_matches-IsWinner :
      (candidates : List (Candidate T)) (mode : MatchMode) (r : Ranked T)
      → In r (select_matches candidates mode)
      → IsWinner candidates r.candidate
  select_matches-IsWinner candidates mode r m =
      survivors-IsWinner candidates r.candidate
        (row-survivor candidates r (select_row candidates mode r m))

  -- Two rows of one source carry the same candidate, and every source with a candidate has a row
  -- in mode `all`.
  pub select_matches_covers :
      (candidates : List (Candidate T))
      → ((r s : Ranked T)
          → In r (select_matches candidates all_matches)
          → In s (select_matches candidates all_matches)
          → r.candidate.source_name ≡ s.candidate.source_name
          → r.candidate ≡ s.candidate)
        × ((c : Candidate T)
            → In c candidates
            → (r : Ranked T) × In r (select_matches candidates all_matches)
              × (r.candidate.source_name ≡ c.source_name))
  unfolding select_matches
  select_matches_covers candidates = (
    λ r s m n q.
        survivors_unique candidates r.candidate s.candidate (row-survivor candidates r m)
          (row-survivor candidates s n) q,
    λ c m.
        let (w, i, q) = survivors_complete candidates c m in
        let (r, j, e) = survivor-row candidates w i in
        (r, j, ap (λ (x : Candidate T). x.source_name) (sym e) ∙ q),
  )

  -- The rows of mode `all` stand by score, the highest first, and rows of one score by source name,
  -- strictly: no source stands twice at one score.
  pub select_matches_ordered :
      (candidates : List (Candidate T))
      → Pairwise Before (map (λ r. r.candidate) (select_matches candidates all_matches))
  unfolding select_matches
  select_matches_ordered candidates =
      subst (Pairwise Before) (sym (map-assign_ranks 0 none (survivors candidates)))
        (survivors_ordered candidates)

  -- With at most `u32::MAX` candidates, the ranks of mode `all` are dense: they are positive, one
  -- row's rank is less than another's exactly if its score is higher, and no rank below a row's is
  -- left out.
  pub select_matches_dense :
      (candidates : List (Candidate T))
      → length candidates ≤ u32_max
      → (r : Ranked T) → In r (select_matches candidates all_matches)
      → (0 < r.match_rank)
        × ((s : Ranked T)
            → In s (select_matches candidates all_matches)
            → (r.match_rank < s.match_rank) ↔ (s.candidate.score < r.candidate.score))
        × ((k : ℕ)
            → 0 < k
            → k ≤ r.match_rank
            → (s : Ranked T) × In s (select_matches candidates all_matches) × (s.match_rank ≡ k))
  unfolding select_matches
  select_matches_dense candidates b r m =
      let bound = survivors-bound candidates b in
      (
        rank_pos (survivors candidates) r bound m,
        λ s n. rank_iff (survivors candidates) r s bound (survivors-Descending candidates) m n,
        λ k lo hi. rank_gapless (survivors candidates) r k bound m lo hi,
      )

  top_score :
      (candidates : List (Candidate T)) (r : Ranked T)
      → length candidates ≤ u32_max
      → In r (assign_ranks 0 none (survivors candidates))
      → r.match_rank ≡ 1
      → (c : Candidate T) → In c candidates
      → c.score ≤ r.candidate.score
  top_score candidates r b m one c i =
      let (w, j, q) = survivors_complete candidates c i in
      let (s, n, e) = survivor-row candidates w j in
      let won = (survivors-IsWinner candidates w j).highest c i (sym q) in
      let same : w.score ≡ s.candidate.score = ap (λ (x : Candidate T). x.score) e in
      let bound = survivors-bound candidates b in
      let ranks = rank_iff (survivors candidates) s r bound (survivors-Descending candidates) n m in
      let pos = rank_pos (survivors candidates) s bound n in ground arith

  top_rank :
      (candidates : List (Candidate T)) (r : Ranked T)
      → length candidates ≤ u32_max
      → In r (assign_ranks 0 none (survivors candidates))
      → ((c : Candidate T) → In c candidates → c.score ≤ r.candidate.score)
      → r.match_rank ≡ 1
  top_rank candidates r b m high =
      let bound = survivors-bound candidates b in
      let (s, n, one) =
        rank_gapless (survivors candidates) r 1 bound m (omega arith)
          (rank_pos (survivors candidates) r bound m) in
      let ranks = rank_iff (survivors candidates) s r bound (survivors-Descending candidates) n m in
      let below =
        high s.candidate
          (survivors-IsWinner candidates s.candidate (row-survivor candidates s n)).candidate in
      let pos = rank_pos (survivors candidates) r bound m in ground arith

  -- With at most `u32::MAX` candidates, mode `best` keeps exactly the rows of mode `all` whose score
  -- is the highest of all the candidates, ties included.
  pub select_matches-best_iff :
      (candidates : List (Candidate T))
      → length candidates ≤ u32_max
      → (r : Ranked T)
      → In r (select_matches candidates best) ↔ (
          In r (select_matches candidates all_matches)
          × ((c : Candidate T) → In c candidates → c.score ≤ r.candidate.score))
  unfolding select_matches
  select_matches-best_iff candidates b r = (
    λ m. let (i, one) = In-retain _ _ r m in (i, top_score candidates r b i (ground arith)),
    λ h. retain-In _ _ r h.0 (rw (top_rank candidates r b h.0 h.1)),
  )
