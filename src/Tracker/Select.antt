-- ===== src/Tracker/Select.antt =====
-- bin/tracker/src/process.rs, `select_matches`: which of the collected candidates become rows, and
-- with which rank. `T` is what a candidate carries for the lift that comes later.
pub mod Winners
pub mod Order
pub mod Ranks
pub mod Selection
mod Tests
use Prim.Native.Nat.{Ordering, compare}
use tx3_lift.Prelude.{
  ℕ, ◌+◌, ◌&&◌, ◌||◌, Bool, true, not, Option, none, some, List, [], ◌∷◌, Text, as_u32, ltb,
  nat_eqb, retain, if◌then◌else◌,
}
use tx3_lift.Prelude.Order.{list_cmp, then_with, ◌<?◌, list_ord, nat_ord}
use tx3_lift.Collections.Map
use tx3_lift.Collections.Map.{Map}
use tx3_lift.Collections.Sort.{sort_by}

-- bin/tracker/src/config.rs, `MatchMode`
pub data MatchMode : Type 0 where
  all_matches best : MatchMode

pub record Candidate (T : Type 0) : Type 0 where
  pub source_name : Text
  pub tx_name : Text
  pub score : ℕ
  pub payload : T

pub record Ranked (T : Type 0) : Type 0 where
  pub candidate : Candidate T
  pub match_rank : ℕ

-- `prev_score != Some(cand.score)`
abbrev pub is_new_score : Option ℕ → ℕ → Bool
is_new_score none score = true
is_new_score (some prev) score = not (nat_eqb prev score)

module _ {T : Type 0} where
  -- the new candidate replaces the incumbent
  abbrev pub replaces : Candidate T → Option (Candidate T) → Bool
  replaces cand none = true
  replaces cand (some existing) =
      ltb existing.score cand.score
      || nat_eqb cand.score existing.score && cand.tx_name <? existing.tx_name

  -- (1) the loop over the candidates, with the map of incumbents
  pub best_per_source : List (Candidate T) → Map Text (Candidate T) → Map Text (Candidate T)
  best_per_source [] incumbents = incumbents
  best_per_source (cand ∷ candidates) incumbents = best_per_source candidates (
      if replaces cand (Map.get incumbents cand.source_name)
      then Map.insert cand.source_name cand incumbents
      else incumbents)

  -- score descending, then source name
  abbrev pub survivor_cmp : Candidate T → Candidate T → Ordering
  survivor_cmp a b = then_with (compare b.score a.score) (list_cmp a.source_name b.source_name)

  -- (2) the loop that hands out ranks; `rank += 1` is on `u32`
  pub assign_ranks : ℕ → Option ℕ → List (Candidate T) → List (Ranked T)
  assign_ranks rank prev [] = []
  assign_ranks rank prev (cand ∷ survivors) =
      let fresh = is_new_score prev cand.score in
      let rank' = if fresh then as_u32 (rank + 1) else rank in
      let prev' = if fresh then some cand.score else prev in
      record { candidate = cand; match_rank = rank' } ∷ assign_ranks rank' prev' survivors

  -- (3) the mode filter
  abbrev pub keep_mode : MatchMode → List (Ranked T) → List (Ranked T)
  keep_mode all_matches ranked = ranked
  keep_mode best ranked = retain (λ r. nat_eqb r.match_rank 1) ranked

  pub survivors : List (Candidate T) → List (Candidate T)
  unfolding best_per_source
  survivors candidates = sort_by survivor_cmp (Map.values (best_per_source candidates []))

  unfoldable pub select_matches : List (Candidate T) → MatchMode → List (Ranked T)
  unfolding survivors assign_ranks sort_by
  select_matches candidates mode = keep_mode mode (assign_ranks 0 none (survivors candidates))
