-- ===== src/Cardano/Matching/Spent.antt =====
-- crates/tx3-lift-cardano/src/matching.rs: a match needs every reference that an input names.
use tx3_lift.Prelude.{
  ℕ, suc, ◌≡◌, refl, sym, ◌∙◌, inl, inr, Bool, true, false, none, some, List, [], ◌∷◌, map, any,
  any_iff, All, In, In-All, Bool-cases, Option-cases, is_empty, arith,
}
use tx3_lift.Prelude.Order.{nat_ord, list_ord, pair_ord, ◌==◌, ==_iff}
use tx3_lift.Collections.Set.{contains}
use tx3_lift.Lift.Tir.{Input, Expression, TirUtxoRef}
use tx3_lift.Lift.Expr.{const_utxo_refs}
use tx3_lift.Lift.Payload.{UtxoRef}
use tx3_lift.Lift.Fingerprint.Extract.{to_ref}
use tx3_lift.Lift.Fingerprint.Extract.Exact.{names_ref, input_names_ref}
use tx3_lift.Cardano.Ledger.{OutputRef, Pallas, CardanoPayload, ref_key}
use tx3_lift.Cardano.Matching.Claims.{is_empty-map}
use tx3_lift.Cardano.Matching.Inputs.{is_ref-key}
use tx3_lift.Cardano.Matching.{Taken, claim, is_ref, assign_refs, assign_input, assign_inputs}

claim-any :
    {A : Type 0} (p : A → Bool) (xs : List A) (flags : List Bool)
    → is_empty (claim p xs flags).0 ≡ false
    → any p xs ≡ true
claim-any p [] flags h = cc
claim-any p (x ∷ xs) [] h = cc
claim-any p (x ∷ xs) (true ∷ flags) h =
    let rest = claim-any p xs flags (sym (is_empty-map suc (claim p xs flags).0) ∙ h) in
    ground arith
claim-any p (x ∷ xs) (false ∷ flags) h = elim (Bool-cases (p x)) [
  | inl y ↦ rw y refl
  | inr n ↦
      let rest = claim-any p xs flags (sym (is_empty-map suc (claim p xs flags).0) ∙ (rw n at h)) in
      ground arith
]

-- an input of the payload is the reference
abbrev IsSpent : List OutputRef → TirUtxoRef → Type 0
IsSpent inputs r = any (is_ref r) inputs ≡ true

assign_refs-IsSpent :
    (refs : List TirUtxoRef) (inputs : List OutputRef) (flags : List Bool) (t : Taken)
    → assign_refs refs inputs flags ≡ some t
    → All (IsSpent inputs) refs
unfolding assign_refs
assign_refs-IsSpent [] inputs flags t h = tt
assign_refs-IsSpent (r ∷ refs) inputs flags t h =
    let c = claim (is_ref r) inputs flags in
    elim (Bool-cases (is_empty c.0)) [
      | inl y ↦ let bad : none ≡ some t = rw y at h in cc
      | inr n ↦ elim (Option-cases (assign_refs refs inputs c.1)) [
        | inl e ↦ let bad : none ≡ some t = rw (n, e) at h in cc
        | inr (more, e) ↦
            (claim-any (is_ref r) inputs flags n, assign_refs-IsSpent refs inputs c.1 more e)
      ]
    ]

names-In :
    (refs : List TirUtxoRef) (r : UtxoRef)
    → contains (map to_ref refs) r ≡ true
    → (x : TirUtxoRef) × In x refs × (to_ref x ≡ r)
names-In [] r h = cc
names-In (x ∷ refs) r h = elim (Bool-cases (to_ref x == r)) [
  | inl y ↦ (x, inl refl, (==_iff (to_ref x) r).0 y)
  | inr n ↦ let (z, i, e) = names-In refs r (rw n at h) in (z, inr i, e)
]

module _ (pallas : Pallas) (payload : CardanoPayload) where
  assign_input-spent :
      (e : Expression) (inputs : List OutputRef) (flags : List Bool) (t : Taken) (r : UtxoRef)
      → assign_input pallas payload e inputs flags ≡ some t
      → names_ref e r ≡ true
      → any (λ o. ref_key o == r) inputs ≡ true
  unfolding assign_input
  assign_input-spent e inputs flags t r h n = elim (Option-cases (const_utxo_refs e)) [
    | inl q ↦ let bad : false ≡ true = rw (q, names_ref) at n in cc
    | inr (refs, q) ↦
        let (x, i, same) = names-In refs r (rw (q, names_ref) at n) in
        let spent = assign_refs-IsSpent refs inputs flags t (rw (q, assign_input) at h) in
        let (o, j, p) = (any_iff (is_ref x) inputs).0 (In-All (IsSpent inputs) refs x spent i) in
        (any_iff (λ y. ref_key y == r) inputs).1
          (o, j, (==_iff (ref_key o) r).1 (is_ref-key x o p ∙ same))
  ]

  pub assign_inputs-spent :
      (is : List Input) (inputs : List OutputRef) (flags : List Bool) (m : List (List ℕ))
      (r : UtxoRef)
      → assign_inputs pallas payload is inputs flags ≡ some m
      → any (input_names_ref r) is ≡ true
      → any (λ o. ref_key o == r) inputs ≡ true
  unfolding assign_inputs
  assign_inputs-spent [] inputs flags m r h n = cc
  assign_inputs-spent (i ∷ is) inputs flags m r h n =
      elim (Option-cases (assign_input pallas payload i.utxos inputs flags)) [
        | inl e ↦ let bad : none ≡ some m = rw (e, assign_inputs) at h in cc
        | inr (t, e) ↦ elim (Option-cases (assign_inputs pallas payload is inputs t.1)) [
          | inl q ↦ let bad : none ≡ some m = rw (e, assign_inputs, q) at h in cc
          | inr (more, q) ↦ elim (Bool-cases (input_names_ref r i)) [
            | inl y ↦ assign_input-spent i.utxos inputs flags t r e y
            | inr z ↦ assign_inputs-spent is inputs t.1 more r q (rw z at n)
          ]
        ]
      ]
