-- ===== src/Cardano/Summarize.antt =====
-- crates/tx3-lift-cardano/src/summarize.rs
pub mod Meaning
pub mod Sound
pub mod Counts
pub mod Refs
use tx3_lift.Prelude.{
  ℕ, ℤ, Bool, true, false, ◌||◌, Option, none, some, List, [], ◌∷◌, map, Bytes, Result, ok, ◌>>=◌,
  any, length, is_some, is_positive, is_negative, clamp_u16, saturating_add_u16, if◌then◌else◌,
}
use tx3_lift.Prelude.Order.{nat_ord, list_ord, pair_ord}
use tx3_lift.Collections.Set.{Set, insert, insert_all}
use tx3_lift.Lift.Payload.{PayloadSummary, UtxoRef, default_summary}
use tx3_lift.Cardano.Ledger.{
  OutputRef, DatumOption, LedgerOutput, PolicyAssets, LedgerTx, Pallas, CardanoPayload,
  CardanoLiftError, ref_key, parsed, resolved_output,
}

abbrev pub insert_address : Option Bytes → Set Bytes → Set Bytes
insert_address none s = s
insert_address (some a) s = insert a s

module _ (pallas : Pallas) (payload : CardanoPayload) where
  abbrev pub add_resolved : Option LedgerOutput → PayloadSummary → PayloadSummary
  add_resolved none s = s
  add_resolved (some output) s = record s {
    input_addresses = insert_address output.address s.input_addresses;
    value_policies = insert_all output.asset_policies s.value_policies;
  }

  abbrev pub add_input : OutputRef → PayloadSummary → PayloadSummary
  add_input input s =
      add_resolved (resolved_output pallas payload (ref_key input))
        (record s { input_refs = insert (ref_key input) s.input_refs })

  pub add_inputs : List OutputRef → PayloadSummary → PayloadSummary
  add_inputs [] s = s
  add_inputs (input ∷ inputs) s = add_inputs inputs (add_input input s)

abbrev pub with_datum : Option Bytes → Option DatumOption → Set Bytes → Set Bytes
with_datum none datum s = s
with_datum (some a) none s = s
with_datum (some a) (some d) s = insert a s

abbrev pub add_output : LedgerOutput → PayloadSummary → PayloadSummary
add_output output s = record s {
  output_addresses = insert_address output.address s.output_addresses;
  output_addresses_with_datum =
      with_datum output.address output.datum s.output_addresses_with_datum;
  value_policies = insert_all output.asset_policies s.value_policies;
}

pub add_outputs : List LedgerOutput → PayloadSummary → PayloadSummary
add_outputs [] s = s
add_outputs (output ∷ outputs) s = add_outputs outputs (add_output output s)

-- `has_positive`, `has_negative`
abbrev pub has_positive : PolicyAssets → Bool
has_positive p = any (λ a. is_positive a.1) p.assets

abbrev pub has_negative : PolicyAssets → Bool
has_negative p = any (λ a. is_negative a.1) p.assets

abbrev pub add_mint : PolicyAssets → PayloadSummary → PayloadSummary
add_mint p s = record s {
  mint_policies = if has_positive p then insert p.policy s.mint_policies else s.mint_policies;
  mint_count = if has_positive p then saturating_add_u16 s.mint_count 1 else s.mint_count;
  burn_policies = if has_negative p then insert p.policy s.burn_policies else s.burn_policies;
  burn_count = if has_negative p then saturating_add_u16 s.burn_count 1 else s.burn_count;
}

pub add_mints : List PolicyAssets → PayloadSummary → PayloadSummary
add_mints [] s = s
add_mints (p ∷ ps) s = add_mints ps (add_mint p s)

abbrev pub items : {A : Type 0} → Option (List A) → List A
items none = []
items (some xs) = xs

-- counts, references, signers, labels and validity
pub add_rest : LedgerTx → PayloadSummary → PayloadSummary
add_rest tx s = record s {
  input_count = clamp_u16 (length tx.inputs);
  output_count = clamp_u16 (length tx.outputs);
  collateral_count = clamp_u16 (length tx.collateral);
  reference_refs = insert_all (map ref_key tx.reference_inputs) s.reference_refs;
  reference_count = clamp_u16 (length tx.reference_inputs);
  signers = insert_all (items tx.required_signers) s.signers;
  metadata_labels = insert_all (items tx.metadata_labels) s.metadata_labels;
  has_validity = is_some tx.validity_start || is_some tx.ttl;
}

-- the fields of one part are not read by another, so their order does not matter
unfoldable pub summarize : Pallas → CardanoPayload → Result CardanoLiftError PayloadSummary
unfolding add_inputs add_outputs add_mints add_rest
summarize pallas payload = do
  tx ← parsed pallas payload
  ok (
      add_rest tx (
        add_mints tx.mints
          (add_outputs tx.outputs (add_inputs pallas payload tx.inputs default_summary))))
