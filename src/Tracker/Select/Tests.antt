-- ===== src/Tracker/Select/Tests.antt =====
-- Runs of `select_matches`: two sources, one of them with two candidates, the other tied with it.
use tx3_lift.Prelude.{ℕ, ◌≡◌, refl, inl, inr, List, [], ◌∷◌, In, arith, ◌<◌}
use tx3_lift.Tracker.Select.{Candidate, Ranked, all_matches, best, select_matches}
use tx3_lift.Tracker.Select.Winners.{IsWinner}
use tx3_lift.Tracker.Select.Order.{Before}
use tx3_lift.Tracker.Select.Selection.{
  select_matches-IsWinner, select_matches_covers, select_matches_ordered, select_matches_dense,
  select_matches-best_iff,
}

abbrev swap : Candidate ℕ
swap = record { source_name = 98 ∷ []; tx_name = 115 ∷ []; score = 3; payload = 0 }

abbrev deposit : Candidate ℕ
deposit = record { source_name = 98 ∷ []; tx_name = 100 ∷ []; score = 3; payload = 1 }

abbrev vault : Candidate ℕ
vault = record { source_name = 97 ∷ []; tx_name = 118 ∷ []; score = 3; payload = 2 }

abbrev mint : Candidate ℕ
mint = record { source_name = 99 ∷ []; tx_name = 109 ∷ []; score = 1; payload = 3 }

abbrev candidates : List (Candidate ℕ)
candidates = swap ∷ mint ∷ deposit ∷ vault ∷ []

abbrev vault_row : Ranked ℕ
vault_row = record { candidate = vault; match_rank = 1 }

abbrev deposit_row : Ranked ℕ
deposit_row = record { candidate = deposit; match_rank = 1 }

abbrev mint_row : Ranked ℕ
mint_row = record { candidate = mint; match_rank = 2 }

rows_of_all : select_matches candidates all_matches ≡ vault_row ∷ deposit_row ∷ mint_row ∷ []
unfolding select_matches
rows_of_all = refl

rows_of_best : select_matches candidates best ≡ vault_row ∷ deposit_row ∷ []
unfolding select_matches
rows_of_best = refl

select_matches-IsWinner_example : IsWinner candidates deposit
unfolding select_matches
select_matches-IsWinner_example =
    select_matches-IsWinner candidates best deposit_row (inr (inl refl))

select_matches_covers_example : deposit_row.candidate ≡ deposit_row.candidate
unfolding select_matches
select_matches_covers_example =
    (select_matches_covers candidates).0 deposit_row deposit_row (inr (inl refl)) (inr (inl refl))
      refl

select_matches_ordered_example : Before vault deposit
unfolding select_matches
select_matches_ordered_example = (select_matches_ordered candidates).0.0

select_matches_dense_example : 0 < mint_row.match_rank
unfolding select_matches
select_matches_dense_example =
    (select_matches_dense candidates (omega arith) mint_row (inr (inr (inl refl)))).0

select_matches-best_iff_example : In vault_row (select_matches candidates all_matches)
unfolding select_matches
select_matches-best_iff_example =
    ((select_matches-best_iff candidates (omega arith) vault_row).0 (inl refl)).0
