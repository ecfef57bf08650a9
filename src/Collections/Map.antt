-- ===== src/Collections/Map.antt =====
-- `BTreeMap`: `new`, `insert`, `get`, `keys`, `values` and iteration.
use Prim.Native.Nat.Ordering.{lt, eq, gt}
use tx3_lift.Prelude.{
  ◌≡◌, refl, suc, ◌≤◌, length, Option, some, none, List, [], ◌∷◌, map, All, All-imp, In, In-All, ap,
  sym, Bool-cases, inl, inr, arith, if◌then◌else◌,
}
use tx3_lift.Prelude.Order.{Ord, ◌==◌, ==_iff}

abbrev pub Map {ℓ κ} : Type ℓ → Type κ → Type (ℓ ⊔ κ)
Map K V = List (K × V)

module _ {ℓ κ} {K : Type ℓ} {V : Type κ} where
  abbrev pub keys : Map K V → List K
  keys = map (λ e. e.0)

  abbrev pub values : Map K V → List V
  values = map (λ e. e.1)

module _ {ℓ κ} {K : Type ℓ} {V : Type κ} ⦃o : Ord K⦄ where
  abbrev pub get : Map K V → K → Option V
  get [] k = none
  get ((j, v) ∷ m) k = if j == k then some v else get m k

  abbrev pub insert : K → V → Map K V → Map K V
  insert k v [] = (k, v) ∷ []
  insert k v ((j, w) ∷ m) =
      let rest = insert k v m in
      elim (o.cmp k j) [ lt ↦ (k, v) ∷ (j, w) ∷ m | eq ↦ (k, v) ∷ m | gt ↦ (j, w) ∷ rest ]

  -- the keys ascend
  abbrev pub IsAscending : Map K V → Type 0
  IsAscending [] = Unit
  IsAscending ((k, v) ∷ m) = All (λ e. o.cmp k e.0 ≡ lt) m × IsAscending m

  pub get-insert :
      (k j : K) (v : V) (m : Map K V) → get (insert k v m) j ≡ (if k == j then some v else get m j)
  get-insert k j v [] = refl
  get-insert k j v ((i, w) ∷ m) =
      ground
        (arith, get-insert k j v m, o.eq_of_cmp k i, o.eq_of_cmp k j, o.eq_of_cmp i j, o.cmp_self k)

  pub All-insert {μ} :
      (P : K × V → Type μ) (k : K) (v : V) (m : Map K V) → P (k, v) → All P m → All P (insert k v m)
  All-insert P k v [] p h = (p, tt)
  All-insert P k v ((j, w) ∷ m) p h = ground (arith, All-insert P k v m p h.1)

  pub insert-IsAscending :
      (k : K) (v : V) (m : Map K V) → IsAscending m → IsAscending (insert k v m)
  insert-IsAscending k v [] h = (tt, tt)
  insert-IsAscending k v ((j, w) ∷ m) h = ground (
    arith,
    o.eq_of_cmp k j,
    o.cmp_swap k j,
    insert-IsAscending k v m h.1,
    All-insert (λ e. o.cmp j e.0 ≡ lt) k v m,
    λ (p : o.cmp k j ≡ lt). All-imp (λ e q. o.lt_trans k j e.0 p q) m h.0,
  )

module _ {K V : Type 0} ⦃o : Ord K⦄ where
  pub In-get : (m : Map K V) (k : K) (v : V) → get m k ≡ some v → In (k, v) m
  In-get [] k v h = cc
  In-get ((j, w) ∷ m) k v h = elim (Bool-cases (j == k)) [
    | inl e ↦ inl (ground (arith, o.eq_of_cmp j k))
    | inr e ↦ inr (In-get m k v (rw e at h))
  ]

  -- the entry that a loop visits is the one that `get` finds
  pub get-In : (m : Map K V) (k : K) (v : V) → IsAscending m → In (k, v) m → get m k ≡ some v
  get-In [] k v a h = absurd h
  get-In ((j, w) ∷ m) k v a h = elim h [
    | inl e ↦
        rw ((==_iff j k).1 (ap (λ (p : K × V). p.0) (sym e))) (ap (λ (p : K × V). some p.1) (sym e))
    | inr r ↦
        let below : o.cmp j k ≡ lt = In-All (λ e. o.cmp j e.0 ≡ lt) m (k, v) a.0 r in
        rw below (get-In m k v a.1 r)
  ]

module _ {ℓ κ} {K : Type ℓ} {V : Type κ} ⦃o : Ord K⦄ where
  pub length-insert-le : (k : K) (v : V) (m : Map K V) → length (insert k v m) ≤ suc (length m)
  length-insert-le k v [] = omega arith
  length-insert-le k v ((j, w) ∷ m) = ground (arith, length-insert-le k v m)
