-- ===== src/Lift/Fingerprint.antt =====
-- crates/tx3-lift/src/fingerprint.rs: the necessary conditions that a specialized transaction puts on
-- a payload, and the cheap test of them.
pub mod Extract
pub mod Matches
use tx3_lift.Prelude.{
  ℕ, ◌+◌, Bool, false, ◌&&◌, ◌||◌, not, Option, none, some, [], List, Bytes, Text, all, length, leb,
}
use tx3_lift.Prelude.Order.{nat_ord, list_ord, pair_ord, ◌==◌}
use tx3_lift.Collections.Set.{Set, is_subset}
use tx3_lift.Collections.Map
use tx3_lift.Collections.Map.{Map}
use tx3_lift.Lift.Tir.{TirVersion}
use tx3_lift.Lift.Payload.{PayloadSummary, UtxoRef}

pub record Fingerprint : Type 0 where
  pub tii_version : Text
  pub tir_version : TirVersion
  pub protocol_name : Text
  pub tx_name : Text
  pub profile_name : Text
  pub tir_hash : ℕ
  pub args_hash : ℕ
  pub required_input_addresses : Set Bytes
  pub required_output_addresses : Set Bytes
  pub required_input_refs : Set UtxoRef
  pub required_reference_refs : Set UtxoRef
  pub required_mint_policies : Set Bytes
  pub required_burn_policies : Set Bytes
  pub required_value_policies : Set Bytes
  pub required_signers : Set Bytes
  pub required_metadata_labels : Set ℕ
  pub min_inputs : ℕ
  pub min_outputs : ℕ
  pub min_mints : ℕ
  pub min_burns : ℕ
  pub min_collateral : ℕ
  pub min_references : ℕ
  pub has_validity : Bool
  pub extras : Map Text Bytes

-- `match summary.extras.get(k) { Some(actual) if actual == v => {} _ => return false }`
abbrev pub extra_agrees : Map Text Bytes → Text × Bytes → Bool
extra_agrees actual (k, v) = elim (Map.get actual k) [ none ↦ false | some w ↦ w == v ]

-- each early `return false` is a conjunct, in the order of the code
unfoldable pub matches : Fingerprint → PayloadSummary → Bool
matches fp s =
    is_subset fp.required_input_addresses s.input_addresses
    && is_subset fp.required_output_addresses s.output_addresses
    && is_subset fp.required_input_refs s.input_refs
    && is_subset fp.required_reference_refs s.reference_refs
    && is_subset fp.required_mint_policies s.mint_policies
    && is_subset fp.required_burn_policies s.burn_policies
    && is_subset fp.required_value_policies s.value_policies
    && is_subset fp.required_signers s.signers
    && is_subset fp.required_metadata_labels s.metadata_labels
    && leb fp.min_inputs s.input_count
    && leb fp.min_outputs s.output_count
    && leb fp.min_mints s.mint_count
    && leb fp.min_burns s.burn_count
    && leb fp.min_collateral s.collateral_count
    && leb fp.min_references s.reference_count
    && (not fp.has_validity || s.has_validity)
    && all (extra_agrees s.extras) fp.extras

unfoldable pub information_score : Fingerprint → ℕ
information_score fp =
    length fp.required_input_addresses
    + length fp.required_output_addresses
    + length fp.required_input_refs
    + length fp.required_reference_refs
    + length fp.required_mint_policies
    + length fp.required_burn_policies
    + length fp.required_value_policies
    + length fp.required_signers
    + length fp.required_metadata_labels
