-- ===== src/Lift/Anchors/Hits.antt =====
-- What `hits` counts, and when a source gates a transaction.
use tx3_lift.Prelude.{
  ◌+◌, ◌≤◌, ◌<◌, ◌≡◌, refl, ◌↔◌, ◌⊎◌, inl, inr, Bool, true, false, ◌||◌, List, [], ◌∷◌, In, Bytes,
  any, any_iff, ||_iff, Bool-cases, count_if, count_if-le, count_if_mono, count_if_pos, length,
  arith,
}
use tx3_lift.Prelude.Order.{nat_ord, list_ord, pair_ord}
use tx3_lift.Collections.Set.{contains}
use tx3_lift.Lift.Payload.{PayloadSummary, UtxoRef}
use tx3_lift.Lift.Anchors.{
  AnchorHits, gates, ProtocolAnchors, address_gating, address_present, utxo_ref_in_use,
  policy_gating, policy_present, address_hits, utxo_ref_hits, policy_hits, hits, count_hit,
}

||-left : (a b : Bool) → a ≡ true → (a || b) ≡ true
||-left a b h = ground arith

module _ {A : Type 0} where
  none_counted : (p : A → Bool) (xs : List A) → any p xs ≡ false → count_if p xs ≡ 0
  none_counted p [] h = refl
  none_counted p (x ∷ xs) h = ground (arith, none_counted p xs)

  counted : (p : A → Bool) (xs : List A) (a : A) → In a xs → p a ≡ true → 0 < count_if p xs
  counted p xs a i q = (count_if_pos p xs).1 ((any_iff p xs).1 (a, i, q))

module _ (summary : PayloadSummary) where
  address_hits-count :
      (xs : List Bytes) (h : AnchorHits)
      → ((address_hits summary xs h).gating ≡ h.gating + count_if (address_gating summary) xs)
        × ((address_hits summary xs h).total ≡ h.total + count_if (address_present summary) xs)
  unfolding address_hits
  address_hits-count [] h = omega arith
  address_hits-count (x ∷ xs) h = ground (
    arith,
    address_hits-count xs (count_hit (address_present summary x) (address_gating summary x) h),
  )

  utxo_ref_hits-count :
      (xs : List UtxoRef) (h : AnchorHits)
      → ((utxo_ref_hits summary xs h).gating ≡ h.gating + count_if (utxo_ref_in_use summary) xs)
        × ((utxo_ref_hits summary xs h).total ≡ h.total + count_if (utxo_ref_in_use summary) xs)
  unfolding utxo_ref_hits
  utxo_ref_hits-count [] h = omega arith
  utxo_ref_hits-count (x ∷ xs) h =
      ground (arith, utxo_ref_hits-count xs (count_hit (utxo_ref_in_use summary x) true h))

  policy_hits-count :
      (xs : List Bytes) (h : AnchorHits)
      → ((policy_hits summary xs h).gating ≡ h.gating + count_if (policy_gating summary) xs)
        × ((policy_hits summary xs h).total ≡ h.total + count_if (policy_present summary) xs)
  unfolding policy_hits
  policy_hits-count [] h = omega arith
  policy_hits-count (x ∷ xs) h = ground (
    arith,
    policy_hits-count xs (count_hit (policy_present summary x) (policy_gating summary x) h),
  )

  module _ (anchors : ProtocolAnchors) where
    -- The three loops count: `gating` the anchors with a gating presence, `total` those present at
    -- all, where a UTxO reference in use is always gating.
    pub hits-count :
        ((hits summary anchors).gating
          ≡ count_if (address_gating summary) anchors.addresses
            + count_if (utxo_ref_in_use summary) anchors.utxo_refs
            + count_if (policy_gating summary) anchors.policies)
        × ((hits summary anchors).total
            ≡ count_if (address_present summary) anchors.addresses
              + count_if (utxo_ref_in_use summary) anchors.utxo_refs
              + count_if (policy_present summary) anchors.policies)
    unfolding hits
    hits-count =
        let h0 : AnchorHits = record { gating = 0; total = 0 } in
        let h1 = address_hits summary anchors.addresses h0 in
        let h2 = utxo_ref_hits summary anchors.utxo_refs h1 in
        omega (
          arith,
          (address_hits-count anchors.addresses h0).0,
          (address_hits-count anchors.addresses h0).1,
          (utxo_ref_hits-count anchors.utxo_refs h1).0,
          (utxo_ref_hits-count anchors.utxo_refs h1).1,
          (policy_hits-count anchors.policies h2).0,
          (policy_hits-count anchors.policies h2).1,
        )

    -- A source never has more gating hits than hits, nor more hits than anchors.
    pub hits_bounds :
        ((hits summary anchors).gating ≤ (hits summary anchors).total)
        × ((hits summary anchors).total
            ≤ length anchors.addresses + length anchors.utxo_refs + length anchors.policies)
    hits_bounds =
        let le_or = λ (a b : Bool) (h : a ≡ true). ||-left a b h in
        omega (
          arith,
          hits-count.0,
          hits-count.1,
          count_if_mono (address_gating summary) (address_present summary) anchors.addresses
              (λ a h. le_or _ _ h),
          count_if_mono (policy_gating summary) (policy_present summary) anchors.policies
              (λ a h. le_or _ _ h),
          count_if-le (address_present summary) anchors.addresses,
          count_if-le (utxo_ref_in_use summary) anchors.utxo_refs,
          count_if-le (policy_present summary) anchors.policies,
        )

    -- the payload engages the protocol: it spends from or makes a stateful output at an anchored
    -- address, uses an anchored UTxO, or mints or burns under an anchored policy
    abbrev pub Engages : Type 0
    Engages =
        ((a : Bytes) × In a anchors.addresses
          × ((contains summary.input_addresses a ≡ true)
              ⊎ (contains summary.output_addresses_with_datum a ≡ true)))
        ⊎ (((r : UtxoRef) × In r anchors.utxo_refs
              × ((contains summary.input_refs r ≡ true)
                  ⊎ (contains summary.reference_refs r ≡ true)))
            ⊎ ((p : Bytes) × In p anchors.policies
                × ((contains summary.mint_policies p ≡ true)
                    ⊎ (contains summary.burn_policies p ≡ true))))

    gates-pos : (gates (hits summary anchors) ≡ true) ↔ (0 < (hits summary anchors).gating)
    unfolding gates
    gates-pos = ground arith

    gates-Engages : gates (hits summary anchors) ≡ true → Engages
    gates-Engages h =
        let pos = gates-pos.0 h in
        elim (Bool-cases (any (address_gating summary) anchors.addresses)) [
          | inl y ↦
              let (a, i, q) = (any_iff (address_gating summary) anchors.addresses).0 y in
              inl (a, i, (||_iff _ _).0 q)
          | inr n ↦ elim (Bool-cases (any (utxo_ref_in_use summary) anchors.utxo_refs)) [
            | inl y ↦
                let (r, i, q) = (any_iff (utxo_ref_in_use summary) anchors.utxo_refs).0 y in
                inr (inl (r, i, (||_iff _ _).0 q))
            | inr m ↦
                let (p, i, q) = (any_iff (policy_gating summary) anchors.policies).0 (
                  (count_if_pos (policy_gating summary) anchors.policies).0 (
                    omega (
                      arith,
                      hits-count.0,
                      none_counted (address_gating summary) anchors.addresses n,
                      none_counted (utxo_ref_in_use summary) anchors.utxo_refs m,
                    ))) in
                inr (inr (p, i, (||_iff _ _).0 q))
          ]
        ]

    Engages-gates : Engages → gates (hits summary anchors) ≡ true
    Engages-gates e = gates-pos.1 (elim e [
      | inl (a, i, q) ↦ omega (
        arith,
        hits-count.0,
        counted (address_gating summary) anchors.addresses a i ((||_iff _ _).1 q),
      )
      | inr f ↦ elim f [
        | inl (r, i, q) ↦ omega (
          arith,
          hits-count.0,
          counted (utxo_ref_in_use summary) anchors.utxo_refs r i ((||_iff _ _).1 q),
        )
        | inr (p, i, q) ↦ omega (
          arith,
          hits-count.0,
          counted (policy_gating summary) anchors.policies p i ((||_iff _ _).1 q),
        )
      ]
    ])

    -- A source gates a transaction exactly if the payload engages one of its anchors. A payment
    -- without a datum, or an asset that is only held, is no engagement.
    pub gates_iff : (gates (hits summary anchors) ≡ true) ↔ Engages
    gates_iff = (gates-Engages, Engages-gates)
