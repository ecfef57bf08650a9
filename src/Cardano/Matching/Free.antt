-- ===== src/Cardano/Matching/Free.antt =====
-- crates/tx3-lift-cardano/src/matching.rs: how many items of the payload the searches leave free.
use tx3_lift.Prelude.{
  ℕ, suc, ◌+◌, ◌≤◌, ◌≡◌, refl, inl, inr, Bool, true, false, not, ◌&&◌, some, List, [], ◌∷◌, length,
  is_empty, count_if, if◌then◌else◌, Bool-cases, arith,
}
use tx3_lift.Lift.Tir.{Output, Mint}
use tx3_lift.Lift.Expr.{const_address, const_policies_in}
use tx3_lift.Cardano.Ledger.{LedgerOutput, PolicyAssets}
use tx3_lift.Cardano.Matching.{
  claim, unused, output_fits, policy_fits, assign_outputs, assign_mints,
}
use tx3_lift.Cardano.Matching.Claims.{is_empty-map}
use tx3_lift.Cardano.Matching.Assigned.{cons-some, mint_fits}

and-true : (a b : Bool) → (a && b) ≡ true → b ≡ true
and-true a b h = ground arith

module _ {A : Type 0} (q : A → Bool) where
  -- the items with `q` whose flag is not set
  abbrev pub free : List A → List Bool → ℕ
  free [] flags = 0
  free (x ∷ xs) [] = 0
  free (x ∷ xs) (true ∷ flags) = free xs flags
  free (x ∷ xs) (false ∷ flags) = let rest = free xs flags in if q x then suc rest else rest

  pub free-unused : (xs : List A) → free xs (unused xs) ≡ count_if q xs
  free-unused [] = refl
  free-unused (x ∷ xs) = ground (arith, free-unused xs)

  module _ (p : A → Bool) (within : (x : A) → p x ≡ true → q x ≡ true) where
    -- a search that finds an item takes one from the free ones, and one that finds none takes none
    free-claim :
        (xs : List A) (flags : List Bool)
        → free xs flags
          ≡ (if is_empty (claim p xs flags).0 then 0 else 1) + free xs (claim p xs flags).1
    free-claim [] flags = refl
    free-claim (x ∷ xs) [] = refl
    free-claim (x ∷ xs) (true ∷ flags) =
        rw (is_empty-map suc (claim p xs flags).0) (free-claim xs flags)
    free-claim (x ∷ xs) (false ∷ flags) = elim (Bool-cases (p x)) [
      | inl y ↦ rw (y, within x y) (omega arith)
      | inr n ↦
          let e = is_empty-map suc (claim p xs flags).0 in
          let ih = free-claim xs flags in rw (n, e) (ground arith)
    ]

pub count_if-assign_outputs :
    (os : List Output) (xs : List LedgerOutput) (flags : List Bool) (m : List (List ℕ))
    → assign_outputs os xs flags ≡ some m
    → count_if (λ o. not o.optional) os ≤ free (λ x. true) xs flags
unfolding assign_outputs
count_if-assign_outputs [] xs flags m h = omega arith
count_if-assign_outputs (o ∷ os) xs flags m h =
    let fits = output_fits (const_address o.address) in
    let (more, b, e, q) = cons-some h in
    let ih = count_if-assign_outputs os xs (claim fits xs flags).1 more e in
    let taken = free-claim (λ x. true) fits (λ x y. refl) xs flags in ground arith

pub length-assign_mints :
    (signed : PolicyAssets → Bool) (ms : List Mint) (xs : List PolicyAssets) (flags : List Bool)
    (m : List (List ℕ))
    → assign_mints signed ms xs flags ≡ some m
    → length ms ≤ free signed xs flags
unfolding assign_mints
length-assign_mints signed [] xs flags m h = omega arith
length-assign_mints signed (o ∷ ms) xs flags m h =
    let (more, b, e, q) = cons-some h in
    let ih = length-assign_mints signed ms xs (claim (mint_fits signed o) xs flags).1 more e in
    let taken =
      free-claim signed (mint_fits signed o)
        (λ x y. and-true (policy_fits (const_policies_in o.amount) x) (signed x) y) xs flags in
    ground arith
