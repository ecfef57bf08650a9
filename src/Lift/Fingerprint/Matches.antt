-- ===== src/Lift/Fingerprint/Matches.antt =====
-- `Fingerprint::matches` decides the conditions that the fields stand for.
use mathlib.Core.Bool.{not}
use tx3_lift.Prelude.{
  ◌≤◌, ◌≡◌, refl, ◌↔◌, inl, inr, Bool, true, ◌||◌, some, In, Bytes, Text, all, leb, leb→le, le→leb,
  Option-cases, ap, all_iff, arith,
}
use tx3_lift.Prelude.Order.{nat_ord, list_ord, pair_ord, ==_iff, Ord}
use tx3_lift.Collections.Set.{Set, contains, is_subset, is_subset_iff}
use tx3_lift.Collections.Map
use tx3_lift.Collections.Map.{Map}
use tx3_lift.Lift.Payload.{PayloadSummary}
use tx3_lift.Lift.Fingerprint.{Fingerprint, matches, extra_agrees}

abbrev pub Within : {K : Type 0} ⦃o : Ord K⦄ → Set K → Set K → Type 0
Within {K} s t = (k : K) → contains s k ≡ true → contains t k ≡ true

-- Every condition of the fingerprint, said of the summary: the sets are contained, the counts are
-- reached, a validity interval is there if one is required, and every extra has its value.
pub record Satisfies (fp : Fingerprint) (s : PayloadSummary) : Type 0 where
  pub input_addresses : Within fp.required_input_addresses s.input_addresses
  pub output_addresses : Within fp.required_output_addresses s.output_addresses
  pub input_refs : Within fp.required_input_refs s.input_refs
  pub reference_refs : Within fp.required_reference_refs s.reference_refs
  pub mint_policies : Within fp.required_mint_policies s.mint_policies
  pub burn_policies : Within fp.required_burn_policies s.burn_policies
  pub value_policies : Within fp.required_value_policies s.value_policies
  pub signers : Within fp.required_signers s.signers
  pub metadata_labels : Within fp.required_metadata_labels s.metadata_labels
  pub input_count : fp.min_inputs ≤ s.input_count
  pub output_count : fp.min_outputs ≤ s.output_count
  pub mint_count : fp.min_mints ≤ s.mint_count
  pub burn_count : fp.min_burns ≤ s.burn_count
  pub collateral_count : fp.min_collateral ≤ s.collateral_count
  pub reference_count : fp.min_references ≤ s.reference_count
  pub validity : fp.has_validity ≡ true → s.has_validity ≡ true
  pub extras : (e : Text × Bytes) → In e fp.extras → Map.get s.extras e.0 ≡ some e.1

extra_iff :
    (actual : Map Text Bytes) (e : Text × Bytes)
    → (extra_agrees actual e ≡ true) ↔ (Map.get actual e.0 ≡ some e.1)
extra_iff actual e = (
  λ h. elim (Option-cases (Map.get actual e.0)) [
    | inl n ↦ ground arith
    | inr (w, q) ↦ rw q (ap some ((==_iff w e.1).0 (rw (q, extra_agrees) at h)))
  ],
  λ h. rw (h, extra_agrees) ((==_iff e.1 e.1).1 refl),
)

not-or : (a b : Bool) → (a ≡ true → b ≡ true) → (not a || b) ≡ true
not-or a b h = ground arith

module _ (fp : Fingerprint) (s : PayloadSummary) where
  abbrev Conjuncts : Type 0
  Conjuncts =
      (is_subset fp.required_input_addresses s.input_addresses ≡ true)
      × (is_subset fp.required_output_addresses s.output_addresses ≡ true)
      × (is_subset fp.required_input_refs s.input_refs ≡ true)
      × (is_subset fp.required_reference_refs s.reference_refs ≡ true)
      × (is_subset fp.required_mint_policies s.mint_policies ≡ true)
      × (is_subset fp.required_burn_policies s.burn_policies ≡ true)
      × (is_subset fp.required_value_policies s.value_policies ≡ true)
      × (is_subset fp.required_signers s.signers ≡ true)
      × (is_subset fp.required_metadata_labels s.metadata_labels ≡ true)
      × (leb fp.min_inputs s.input_count ≡ true)
      × (leb fp.min_outputs s.output_count ≡ true)
      × (leb fp.min_mints s.mint_count ≡ true)
      × (leb fp.min_burns s.burn_count ≡ true)
      × (leb fp.min_collateral s.collateral_count ≡ true)
      × (leb fp.min_references s.reference_count ≡ true)
      × ((not fp.has_validity || s.has_validity) ≡ true)
      × (all (extra_agrees s.extras) fp.extras ≡ true)

  matches-conjuncts : (matches fp s ≡ true) ↔ Conjuncts
  unfolding matches
  matches-conjuncts = (λ h. ground arith, λ h. ground arith)

  matches-Satisfies : matches fp s ≡ true → Satisfies fp s
  matches-Satisfies h =
      let c = matches-conjuncts.0 h in
      record {
        input_addresses = (is_subset_iff fp.required_input_addresses s.input_addresses).0 c.0;
        output_addresses = (is_subset_iff fp.required_output_addresses s.output_addresses).0 c.1;
        input_refs = (is_subset_iff fp.required_input_refs s.input_refs).0 c.2;
        reference_refs = (is_subset_iff fp.required_reference_refs s.reference_refs).0 c.3;
        mint_policies = (is_subset_iff fp.required_mint_policies s.mint_policies).0 c.4;
        burn_policies = (is_subset_iff fp.required_burn_policies s.burn_policies).0 c.5;
        value_policies = (is_subset_iff fp.required_value_policies s.value_policies).0 c.6;
        signers = (is_subset_iff fp.required_signers s.signers).0 c.7;
        metadata_labels = (is_subset_iff fp.required_metadata_labels s.metadata_labels).0 c.8;
        input_count = leb→le fp.min_inputs s.input_count c.9;
        output_count = leb→le fp.min_outputs s.output_count c.10;
        mint_count = leb→le fp.min_mints s.mint_count c.11;
        burn_count = leb→le fp.min_burns s.burn_count c.12;
        collateral_count = leb→le fp.min_collateral s.collateral_count c.13;
        reference_count = leb→le fp.min_references s.reference_count c.14;
        validity = λ v. ground arith;
        extras = λ e i.
            (extra_iff s.extras e).0 ((all_iff (extra_agrees s.extras) fp.extras).0 c.16 e i);
      }

  Satisfies-matches : Satisfies fp s → matches fp s ≡ true
  Satisfies-matches h = matches-conjuncts.1 (
    (is_subset_iff fp.required_input_addresses s.input_addresses).1 h.input_addresses,
    (is_subset_iff fp.required_output_addresses s.output_addresses).1 h.output_addresses,
    (is_subset_iff fp.required_input_refs s.input_refs).1 h.input_refs,
    (is_subset_iff fp.required_reference_refs s.reference_refs).1 h.reference_refs,
    (is_subset_iff fp.required_mint_policies s.mint_policies).1 h.mint_policies,
    (is_subset_iff fp.required_burn_policies s.burn_policies).1 h.burn_policies,
    (is_subset_iff fp.required_value_policies s.value_policies).1 h.value_policies,
    (is_subset_iff fp.required_signers s.signers).1 h.signers,
    (is_subset_iff fp.required_metadata_labels s.metadata_labels).1 h.metadata_labels,
    le→leb fp.min_inputs s.input_count h.input_count,
    le→leb fp.min_outputs s.output_count h.output_count,
    le→leb fp.min_mints s.mint_count h.mint_count,
    le→leb fp.min_burns s.burn_count h.burn_count,
    le→leb fp.min_collateral s.collateral_count h.collateral_count,
    le→leb fp.min_references s.reference_count h.reference_count,
    not-or fp.has_validity s.has_validity h.validity,
    (all_iff (extra_agrees s.extras) fp.extras).1 (λ e i. (extra_iff s.extras e).1 (h.extras e i)),
  )

  -- The pre-filter accepts a summary exactly if it satisfies every condition of the fingerprint.
  pub matches_iff : (matches fp s ≡ true) ↔ Satisfies fp s
  matches_iff = (matches-Satisfies, Satisfies-matches)
