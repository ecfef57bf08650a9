-- ===== src/Tracker/Select/Order.antt =====
-- The survivors: who they are, and the order in which they stand.
use Prim.Native.Nat.Ordering.{lt, gt}
use tx3_lift.Prelude.{
  ◌≡◌, ◌≢◌, ◌<◌, ◌⊎◌, inl, inr, List, [], ◌∷◌, In, All, Pairwise, Text, ◌+◌, ◌≤◌, length,
  length-map, Bool-cases, arith, sym,
}
use tx3_lift.Prelude.Order.{list_cmp, text_ord, nat_ord, list_ord}
use tx3_lift.Collections.Map
use tx3_lift.Collections.Map.{Map, length-insert-le}
use tx3_lift.Collections.Sort.{In-sort_by, length-sort_by, sort_by-Pairwise, sort_by-sorted}
use tx3_lift.Tracker.Select.{Candidate, survivor_cmp, replaces, best_per_source, survivors}
use tx3_lift.Tracker.Select.Winners.{
  IsWinner, OtherSource, values-IsWinner, values_unique, values_complete, incumbents_apart,
}

module _ {T : Type 0} where
  -- a higher score, or the same score and an earlier source
  abbrev pub Before : Candidate T → Candidate T → Type 0
  Before a b =
      (b.score < a.score) ⊎ ((a.score ≡ b.score) × (list_cmp a.source_name b.source_name ≡ lt))

  survivor_cmp_trans :
      (a b c : Candidate T) → survivor_cmp a b ≢ gt → survivor_cmp b c ≢ gt → survivor_cmp a c ≢ gt
  survivor_cmp_trans a b c = ground (
    arith,
    text_ord.cmp_swap a.source_name b.source_name,
    text_ord.cmp_swap b.source_name c.source_name,
    text_ord.cmp_swap a.source_name c.source_name,
    text_ord.eq_of_cmp a.source_name b.source_name,
    text_ord.eq_of_cmp b.source_name c.source_name,
    text_ord.lt_trans a.source_name b.source_name c.source_name,
    text_ord.lt_trans b.source_name c.source_name a.source_name,
    text_ord.lt_trans c.source_name a.source_name b.source_name,
  )

  Before-of : (a b : Candidate T) → survivor_cmp a b ≢ gt → OtherSource a b → Before a b
  Before-of a b = ground (arith, text_ord.eq_of_cmp a.source_name b.source_name)

  Pairwise-and :
      {R S Q : Candidate T → Candidate T → Type 0}
      → ((a b : Candidate T) → R a b → S a b → Q a b)
      → (xs : List (Candidate T)) → Pairwise R xs
      → Pairwise S xs
      → Pairwise Q xs
  Pairwise-and f [] p q = tt
  Pairwise-and {R} {S} {Q} f (x ∷ xs) p q = (all_and xs p.0 q.0, Pairwise-and f xs p.1 q.1)
    where
      all_and : (ys : List (Candidate T)) → All (R x) ys → All (S x) ys → All (Q x) ys
      all_and [] h k = tt
      all_and (y ∷ ys) h k = (f x y h.0 k.0, all_and ys h.1 k.1)

  -- survivors stand by score, then by source, and no source twice
  pub survivors_ordered : (candidates : List (Candidate T)) → Pairwise Before (survivors candidates)
  unfolding survivors
  survivors_ordered candidates =
      Pairwise-and Before-of (survivors candidates)
        (sort_by-sorted survivor_cmp
          (λ a b. ground (arith, text_ord.cmp_swap a.source_name b.source_name)) survivor_cmp_trans
          _)
        (sort_by-Pairwise survivor_cmp OtherSource (λ a b n q. n (sym q)) _
          (incumbents_apart candidates))

  pub survivors-IsWinner :
      (candidates : List (Candidate T)) (w : Candidate T)
      → In w (survivors candidates)
      → IsWinner candidates w
  unfolding survivors
  survivors-IsWinner candidates w m =
      values-IsWinner candidates w ((In-sort_by survivor_cmp _ w).0 m)

  pub survivors_unique :
      (candidates : List (Candidate T)) (v w : Candidate T)
      → In v (survivors candidates)
      → In w (survivors candidates)
      → v.source_name ≡ w.source_name
      → v ≡ w
  unfolding survivors
  survivors_unique candidates v w i j =
      values_unique candidates v w ((In-sort_by survivor_cmp _ v).0 i)
        ((In-sort_by survivor_cmp _ w).0 j)

  pub survivors_complete :
      (candidates : List (Candidate T)) (c : Candidate T)
      → In c candidates
      → (w : Candidate T) × In w (survivors candidates) × (w.source_name ≡ c.source_name)
  unfolding survivors
  survivors_complete candidates c m =
      let (w, i, q) = values_complete candidates c m in (w, (In-sort_by survivor_cmp _ w).1 i, q)

  length-best_per_source-le :
      (candidates : List (Candidate T)) (m : Map Text (Candidate T))
      → length (best_per_source candidates m) ≤ length candidates + length m
  unfolding best_per_source
  length-best_per_source-le [] m = omega arith
  length-best_per_source-le (c ∷ candidates) m =
      elim (Bool-cases (replaces c (Map.get m c.source_name))) [
        | inl y ↦ rw y (
            omega (
              arith,
              length-best_per_source-le candidates (Map.insert c.source_name c m),
              length-insert-le c.source_name c m,
            ))
        | inr n ↦ rw n (omega (arith, length-best_per_source-le candidates m))
      ]

  pub length-survivors-le :
      (candidates : List (Candidate T)) → length (survivors candidates) ≤ length candidates
  unfolding survivors
  length-survivors-le candidates = omega (
    arith,
    length-sort_by survivor_cmp (Map.values (best_per_source candidates [])),
    length-map (best_per_source candidates []) (λ e. e.1),
    length-best_per_source-le candidates [],
  )
