-- ===== src/Lift/Payload.antt =====
-- crates/tx3-lift/src/payload.rs: what a payload shows of itself, whatever the chain.
use tx3_lift.Prelude.{ℕ, Bool, false, [], Bytes, Text}
use tx3_lift.Collections.Set.{Set}
use tx3_lift.Collections.Map.{Map}

abbrev pub UtxoRef : Type 0
UtxoRef = Bytes × ℕ

pub record PayloadSummary : Type 0 where
  pub input_addresses : Set Bytes
  pub output_addresses : Set Bytes
  pub output_addresses_with_datum : Set Bytes
  pub input_refs : Set UtxoRef
  pub reference_refs : Set UtxoRef
  pub mint_policies : Set Bytes
  pub burn_policies : Set Bytes
  pub value_policies : Set Bytes
  pub signers : Set Bytes
  pub metadata_labels : Set ℕ
  pub input_count : ℕ
  pub output_count : ℕ
  pub mint_count : ℕ
  pub burn_count : ℕ
  pub collateral_count : ℕ
  pub reference_count : ℕ
  pub has_validity : Bool
  pub extras : Map Text Bytes

-- `PayloadSummary::default()`
abbrev pub default_summary : PayloadSummary
default_summary = record {
  input_addresses = [];
  output_addresses = [];
  output_addresses_with_datum = [];
  input_refs = [];
  reference_refs = [];
  mint_policies = [];
  burn_policies = [];
  value_policies = [];
  signers = [];
  metadata_labels = [];
  input_count = 0;
  output_count = 0;
  mint_count = 0;
  burn_count = 0;
  collateral_count = 0;
  reference_count = 0;
  has_validity = false;
  extras = [];
}
