-- ===== src/Lift/Lifted.antt =====
-- crates/tx3-lift/src/lift.rs: what a matched transaction is lifted to. `A` stands for the
-- `CanonicalAssets` of tx3_tir.
use tx3_lift.Prelude.{ℕ, ℤ, Option, List, Bytes, Text}
use tx3_lift.Collections.Map.{Map}
use tx3_lift.Lift.Tir.{Expression}
use tx3_lift.Lift.Payload.{UtxoRef}

pub data PartyRole : Type 0 where
  as_input as_output as_signer multiple absent : PartyRole

pub record PartyAnnotation : Type 0 where
  pub name : Text
  pub address : Bytes
  pub role : PartyRole

pub record TypedDatum : Type 0 where
  pub raw : Bytes
  pub decoded : Expression
  pub schema_ref : Option Text

pub record InputAnnotation (A : Type 0) : Type 0 where
  pub tir_input_name : Text
  pub utxo_ref : UtxoRef
  pub address : Bytes
  pub party : Option Text
  pub assets : A
  pub datum : Option TypedDatum
  pub redeemer : Option TypedDatum

pub record OutputAnnotation (A : Type 0) : Type 0 where
  pub tir_output_index : ℕ
  pub address : Bytes
  pub party : Option Text
  pub assets : A
  pub datum : Option TypedDatum

pub record MintAnnotation : Type 0 where
  pub tir_mint_index : ℕ
  pub policy : Bytes
  pub policy_name : Option Text
  pub assets : List (Bytes × ℤ)
  pub redeemer : Option TypedDatum

pub record SignerAnnotation : Type 0 where
  pub key_hash : Bytes
  pub party : Option Text

pub record MetadataAnnotation : Type 0 where
  pub label : ℕ
  pub value : Expression

pub record Lifted (A : Type 0) : Type 0 where
  pub tx_id : Bytes
  pub protocol_name : Text
  pub tx_name : Text
  pub profile_name : Text
  pub tir_hash : ℕ
  pub parties : Map Text PartyAnnotation
  pub inputs : List (InputAnnotation A)
  pub references : List (InputAnnotation A)
  pub outputs : List (OutputAnnotation A)
  pub mints : List MintAnnotation
  pub burns : List MintAnnotation
  pub policies : Map Bytes Text
  pub signers : List SignerAnnotation
  pub metadata : List MetadataAnnotation
