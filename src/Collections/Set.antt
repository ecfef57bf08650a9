-- ===== src/Collections/Set.antt =====
-- `BTreeSet`: `new`, `insert`, `contains`, `is_subset`, `len`, `is_empty` and iteration.
use Prim.Native.Nat.Ordering.{lt, eq, gt}
use tx3_lift.Prelude.{
  ◌≡◌, refl, ◌↔◌, Bool, true, false, ◌||◌, List, [], ◌∷◌, All, All-imp, all, arith,
}
use tx3_lift.Prelude.Order.{Ord, ◌==◌}

abbrev pub Set {ℓ} : Type ℓ → Type ℓ
Set K = List K

module _ {ℓ} {K : Type ℓ} ⦃o : Ord K⦄ where
  abbrev pub contains : Set K → K → Bool
  contains [] k = false
  contains (x ∷ s) k = x == k || contains s k

  abbrev pub insert : K → Set K → Set K
  insert k [] = k ∷ []
  insert k (x ∷ s) =
      let rest = insert k s in elim (o.cmp k x) [ lt ↦ k ∷ x ∷ s | eq ↦ x ∷ s | gt ↦ x ∷ rest ]

  -- every element of the first is in the second
  abbrev pub is_subset : Set K → Set K → Bool
  is_subset s t = all (contains t) s

  -- `for x in xs { s.insert(x); }`
  abbrev pub insert_all : List K → Set K → Set K
  insert_all [] s = s
  insert_all (x ∷ xs) s = insert_all xs (insert x s)

  abbrev pub IsAscending : Set K → Type 0
  IsAscending [] = Unit
  IsAscending (x ∷ s) = All (λ y. o.cmp x y ≡ lt) s × IsAscending s

  pub contains-insert : (k j : K) (s : Set K) → contains (insert k s) j ≡ (k == j || contains s j)
  contains-insert k j [] = refl
  contains-insert k j (x ∷ s) = ground (arith, contains-insert k j s, o.eq_of_cmp k x)

  pub contains-insert_all :
      (xs : List K) (s : Set K) (j : K)
      → contains (insert_all xs s) j ≡ (contains xs j || contains s j)
  contains-insert_all [] s j = refl
  contains-insert_all (x ∷ xs) s j =
      ground (arith, contains-insert_all xs (insert x s) j, contains-insert x j s)

  pub All-insert {κ} : (P : K → Type κ) (k : K) (s : Set K) → P k → All P s → All P (insert k s)
  All-insert P k [] p h = (p, tt)
  All-insert P k (x ∷ s) p h = ground (arith, All-insert P k s p h.1)

  -- insertion keeps the elements ascending, so a loop over the set visits each once
  pub insert-IsAscending : (k : K) (s : Set K) → IsAscending s → IsAscending (insert k s)
  insert-IsAscending k [] h = (tt, tt)
  insert-IsAscending k (x ∷ s) h = ground (
    arith,
    o.cmp_swap k x,
    insert-IsAscending k s h.1,
    All-insert (λ y. o.cmp x y ≡ lt) k s,
    λ (p : o.cmp k x ≡ lt). All-imp (λ y q. o.lt_trans k x y p q) s h.0,
  )

  contains-of_subset :
      (s t : Set K) → is_subset s t ≡ true → (k : K) → contains s k ≡ true → contains t k ≡ true
  contains-of_subset [] t h k c = cc
  contains-of_subset (x ∷ s) t h k c =
      ground (arith, contains-of_subset s t (ground arith) k, o.eq_of_cmp x k)

  subset_of_contains :
      (s t : Set K) → ((k : K) → contains s k ≡ true → contains t k ≡ true) → is_subset s t ≡ true
  subset_of_contains [] t h = refl
  subset_of_contains (x ∷ s) t h =
      ground (arith, o.cmp_self x, h x, subset_of_contains s t (λ k c. h k (ground arith)))

  -- `is_subset` decides inclusion
  pub is_subset_iff :
      (s t : Set K) → (is_subset s t ≡ true) ↔ ((k : K) → contains s k ≡ true → contains t k ≡ true)
  is_subset_iff s t = (contains-of_subset s t, subset_of_contains s t)
