-- ===== src/Tracker/Select/Ranks.antt =====
-- The ranks: dense, from 1, shared exactly by equal scores.
use tx3_lift.Prelude.{
  ℕ, ◌+◌, ◌≤◌, ◌<◌, ◌≡◌, refl, ap, sym, ◌∙◌, In-All, ◌⊎◌, ◌↔◌, inl, inr, Option, none, some, List,
  [], ◌∷◌, map, In, All, All-imp, Pairwise, length, u32_max, as_u32, arith, if◌then◌else◌,
  Bool-cases,
}
use native.Mathlib.Decide.{dec_lt}
use tx3_lift.Tracker.Select.{Candidate, Ranked, is_new_score, assign_ranks}

abbrev next_rank : ℕ → Option ℕ → ℕ → ℕ
next_rank rank prev score = if is_new_score prev score then as_u32 (rank + 1) else rank

abbrev next_prev : Option ℕ → ℕ → Option ℕ
next_prev prev score = if is_new_score prev score then some score else prev

module _ {T : Type 0} where
  -- the rank of `s` against a row of rank `rank` and score `p` above it
  abbrev Follows : ℕ → ℕ → Ranked T → Type 0
  Follows rank p s =
      ((s.candidate.score ≡ p) × (s.match_rank ≡ rank))
      ⊎ ((s.candidate.score < p) × (rank < s.match_rank))

  abbrev RankOrder : Ranked T → Ranked T → Type 0
  RankOrder r s = Follows r.match_rank r.candidate.score s

  abbrev pub Descending : List (Candidate T) → Type 0
  Descending = Pairwise (λ a b. b.score ≤ a.score)

  -- ranking keeps the survivors, in order
  pub map-assign_ranks :
      (rank : ℕ) (prev : Option ℕ) (xs : List (Candidate T))
      → map (λ r. r.candidate) (assign_ranks rank prev xs) ≡ xs
  unfolding assign_ranks
  map-assign_ranks rank prev [] = refl
  map-assign_ranks rank prev (c ∷ xs) =
      ap (◌∷◌ c) (map-assign_ranks (next_rank rank prev c.score) (next_prev prev c.score) xs)

  assign_ranks-Follows :
      (rank p : ℕ) (xs : List (Candidate T))
      → rank + length xs ≤ u32_max
      → All (λ c. c.score ≤ p) xs
      → Descending xs
      → All (Follows rank p) (assign_ranks rank (some p) xs)
  unfolding assign_ranks
  assign_ranks-Follows rank p [] b h d = tt
  assign_ranks-Follows rank p (c ∷ xs) b h d = elim (Bool-cases (is_new_score (some p) c.score)) [
    | inl new ↦
        let next : as_u32 (rank + 1) ≡ rank + 1 = omega arith in
        rw (new, next)
          (
            inr (ground arith, omega arith),
            All-imp (λ s f. ground arith) _
                (assign_ranks-Follows (rank + 1) c.score xs (omega arith) d.0 d.1),
          )
    | inr old ↦
        rw old (inl (ground arith, refl), assign_ranks-Follows rank p xs (omega arith) h.1 d.1)
  ]

  -- the first row
  assign_ranks-RankOrder :
      (rank : ℕ) (prev : Option ℕ) (xs : List (Candidate T))
      → rank + length xs ≤ u32_max
      → Descending xs
      → Pairwise RankOrder (assign_ranks rank prev xs)
  unfolding assign_ranks
  assign_ranks-RankOrder rank prev [] b d = tt
  assign_ranks-RankOrder rank none (c ∷ xs) b d =
      let next : as_u32 (rank + 1) ≡ rank + 1 = omega arith in
      rw next (
        assign_ranks-Follows (rank + 1) c.score xs (omega arith) d.0 d.1,
        assign_ranks-RankOrder (rank + 1) (some c.score) xs (omega arith) d.1,
      )
  assign_ranks-RankOrder rank (some p) (c ∷ xs) b d =
      elim (Bool-cases (is_new_score (some p) c.score)) [
        | inl new ↦
            let next : as_u32 (rank + 1) ≡ rank + 1 = omega arith in
            rw (new, next)
              (
                assign_ranks-Follows (rank + 1) c.score xs (omega arith) d.0 d.1,
                assign_ranks-RankOrder (rank + 1) (some c.score) xs (omega arith) d.1,
              )
        | inr old ↦
            let same : p ≡ c.score = ground arith in
            rw old (
              rw same (assign_ranks-Follows rank c.score xs (omega arith) d.0 d.1),
              assign_ranks-RankOrder rank (some p) xs (omega arith) d.1,
            )
      ]

  -- the row before the rest, which has the ranks above `rank`
  gapless_cons :
      (rank : ℕ) (row : Ranked T) (rest : List (Ranked T)) (r : Ranked T) (k : ℕ)
      → row.match_rank ≡ rank
      → In r (row ∷ rest)
      → rank ≤ k
      → k ≤ r.match_rank
      → (In r rest → rank < k → (s : Ranked T) × In s rest × (s.match_rank ≡ k))
      → (s : Ranked T) × In s (row ∷ rest) × (s.match_rank ≡ k)
  gapless_cons rank row rest r k e m lo hi more = elim (dec_lt rank k) [
    | yes p ↦ elim m [
      | inl h ↦
          let rank_r : r.match_rank ≡ row.match_rank = ap (λ (x : Ranked T). x.match_rank) h in
          absurd (omega arith)
      | inr i ↦ let (s, j, q) = more i p in (s, inr j, q)
    ]
    | no p ↦ (row, inl refl, omega arith)
  ]

  -- no rank is skipped
  assign_ranks_gapless :
      (rank : ℕ) (prev : Option ℕ) (xs : List (Candidate T)) (r : Ranked T) (k : ℕ)
      → rank + length xs ≤ u32_max
      → In r (assign_ranks rank prev xs)
      → rank < k
      → k ≤ r.match_rank
      → (s : Ranked T) × In s (assign_ranks rank prev xs) × (s.match_rank ≡ k)
  unfolding assign_ranks
  assign_ranks_gapless rank prev [] r k b m lo hi = absurd m
  assign_ranks_gapless rank prev (c ∷ xs) r k b m lo hi =
      elim (Bool-cases (is_new_score prev c.score)) [
        | inl new ↦
            let next : as_u32 (rank + 1) ≡ rank + 1 = omega arith in
            rw (new, next)
              (gapless_cons (rank + 1) (record { candidate = c; match_rank = rank + 1 }) _ r k refl
                (rw (new, next) at m) (omega arith) hi
                (λ i lo'.
                  assign_ranks_gapless (rank + 1) (some c.score) xs r k (omega arith) i lo' hi))
        | inr old ↦ rw old (
            gapless_cons rank (record { candidate = c; match_rank = rank }) _ r k refl (rw old at m)
              (omega arith) hi
              (λ i lo'. assign_ranks_gapless rank prev xs r k (omega arith) i lo' hi))
      ]

  -- ranks start above `rank`
  assign_ranks_above :
      (rank : ℕ) (prev : Option ℕ) (xs : List (Candidate T)) (r : Ranked T)
      → rank + length xs ≤ u32_max
      → (prev ≡ none) ⊎ (0 < rank)
      → In r (assign_ranks rank prev xs)
      → 0 < r.match_rank
  unfolding assign_ranks
  assign_ranks_above rank prev [] r b h m = absurd m
  assign_ranks_above rank prev (c ∷ xs) r b h m = elim (Bool-cases (is_new_score prev c.score)) [
    | inl new ↦
        let next : as_u32 (rank + 1) ≡ rank + 1 = omega arith in
        elim (rw (new, next) at m) [
          | inl e ↦
              let rank_r : r.match_rank ≡ rank + 1 = ap (λ (x : Ranked T). x.match_rank) e in
              omega arith
          | inr i ↦
              assign_ranks_above (rank + 1) (some c.score) xs r (omega arith) (inr (omega arith)) i
        ]
    | inr old ↦
        let pos : 0 < rank = ground arith in
        elim (rw old at m) [
          | inl e ↦
              let rank_r : r.match_rank ≡ rank = ap (λ (x : Ranked T). x.match_rank) e in
              omega arith
          | inr i ↦ assign_ranks_above rank prev xs r (omega arith) (inr pos) i
        ]
  ]

  -- of two rows in order, each against the other
  Pairwise-In :
      (xs : List (Ranked T)) (r s : Ranked T)
      → Pairwise RankOrder xs
      → In r xs
      → In s xs
      → (r ≡ s) ⊎ (RankOrder r s ⊎ RankOrder s r)
  Pairwise-In [] r s p m n = absurd m
  Pairwise-In (x ∷ xs) r s p m n = elim m [
    | inl e ↦ elim n [
      | inl f ↦ inl (e ∙ sym f)
      | inr j ↦ inr (inl (rw e (In-All (RankOrder x) xs s p.0 j)))
    ]
    | inr i ↦ elim n [
      | inl f ↦ inr (inr (rw f (In-All (RankOrder x) xs r p.0 i)))
      | inr j ↦ Pairwise-In xs r s p.1 i j
    ]
  ]

  pub rank_iff :
      (xs : List (Candidate T)) (r s : Ranked T)
      → length xs ≤ u32_max
      → Descending xs
      → In r (assign_ranks 0 none xs)
      → In s (assign_ranks 0 none xs)
      → (r.match_rank < s.match_rank) ↔ (s.candidate.score < r.candidate.score)
  rank_iff xs r s b d m n =
      elim (Pairwise-In (assign_ranks 0 none xs) r s
        (assign_ranks-RankOrder 0 none xs (omega arith) d) m n) [
          | inl e ↦
              let ranks : r.match_rank ≡ s.match_rank = ap (λ (x : Ranked T). x.match_rank) e in
              let scores : r.candidate.score ≡ s.candidate.score =
                ap (λ (x : Ranked T). x.candidate.score) e in
              (λ h. omega arith, λ h. omega arith)
          | inr h ↦ (λ k. omega arith, λ k. omega arith)
        ]

  pub rank_gapless :
      (xs : List (Candidate T)) (r : Ranked T) (k : ℕ)
      → length xs ≤ u32_max
      → In r (assign_ranks 0 none xs)
      → 0 < k
      → k ≤ r.match_rank
      → (s : Ranked T) × In s (assign_ranks 0 none xs) × (s.match_rank ≡ k)
  rank_gapless xs r k b m lo hi = assign_ranks_gapless 0 none xs r k (omega arith) m lo hi

  pub rank_pos :
      (xs : List (Candidate T)) (r : Ranked T)
      → length xs ≤ u32_max
      → In r (assign_ranks 0 none xs)
      → 0 < r.match_rank
  rank_pos xs r b m = assign_ranks_above 0 none xs r (omega arith) (inl refl) m
