-- ===== src/Cardano/Ledger.antt =====
-- crates/tx3-lift-cardano/src/payload.rs and error.rs, and what the code reads of a decoded
-- transaction or output through the accessors of `pallas`. Decoding itself is a parameter, whose
-- `none` is pallas' error.
use tx3_lift.Prelude.{ℕ, ℤ, Option, none, some, List, [], Bytes, Result, ok, ◌>>=◌, ok_or, as_u32}
use tx3_lift.Prelude.Order.{nat_ord, list_ord, pair_ord}
use tx3_lift.Collections.Map
use tx3_lift.Collections.Map.{Map}
use tx3_lift.Lift.Error.{Error}
use tx3_lift.Lift.Payload.{UtxoRef}

-- `OutputRef`: the index is a `u64`
pub record OutputRef : Type 0 where
  pub hash : Bytes
  pub index : ℕ

-- `BigInt`; `Int` as the integer that it stands for
pub data BigInt : Type 0 where
  int : ℤ → BigInt
  big_uint big_nint : Bytes → BigInt

-- `PlutusData`, and `MaybeIndefArray`, which keeps the encoding of an array
mutual
  pub data PlutusData : Type 0 where
    bounded_bytes : Bytes → PlutusData
    big_int : BigInt → PlutusData
    constr : ℕ → Option ℕ → MaybeIndefArray → PlutusData
    array : MaybeIndefArray → PlutusData
    map_data : DataPairs → PlutusData

  pub data MaybeIndefArray : Type 0 where
    definite indefinite : DataItems → MaybeIndefArray

  pub data DataItems : Type 0 where
    no_items : DataItems
    item : PlutusData → DataItems → DataItems

  pub data DataPairs : Type 0 where
    no_data_pairs : DataPairs
    data_pair : PlutusData → PlutusData → DataPairs → DataPairs

-- `DatumOption`
pub data DatumOption : Type 0 where
  inline_data : PlutusData → DatumOption
  datum_hash : Bytes → DatumOption

-- the address if it parses, the datum, the `u64` coin, and the policies of `value().assets()`
pub record LedgerOutput : Type 0 where
  pub address : Option Bytes
  pub datum : Option DatumOption
  pub coin : ℕ
  pub asset_policies : List Bytes

-- the assets of one policy under `mints()`: name and `any_coin`
pub record PolicyAssets : Type 0 where
  pub policy : Bytes
  pub assets : List (Bytes × ℤ)

-- `required_signers` and `metadata` in their `AlonzoCompatible` case, `none` in the others
pub record LedgerTx : Type 0 where
  pub hash : Bytes
  pub inputs : List OutputRef
  pub outputs : List LedgerOutput
  pub mints : List PolicyAssets
  pub collateral : List OutputRef
  pub reference_inputs : List OutputRef
  pub required_signers : Option (List Bytes)
  pub metadata_labels : Option (List ℕ)
  pub validity_start : Option ℕ
  pub ttl : Option ℕ

-- an era by its number
abbrev pub Era : Type 0
Era = ℕ

pub record Pallas : Type 0 where
  pub decode_tx : Bytes → Option LedgerTx
  pub decode_output : Era → Bytes → Option LedgerOutput
  pub encode_data : PlutusData → Bytes

pub record ResolvedOutput : Type 0 where
  pub era : Era
  pub cbor : Bytes

pub record CardanoPayload : Type 0 where
  pub raw : Bytes
  pub resolved_inputs : Map UtxoRef ResolvedOutput

pub data CardanoLiftError : Type 0 where
  core : Error → CardanoLiftError
  pallas_decode : CardanoLiftError
  unresolved_input : UtxoRef → CardanoLiftError
  datum_decode : CardanoLiftError
  address_parse : CardanoLiftError

-- `(ByteBuf::from(oref.hash().to_vec()), oref.index() as u32)`
abbrev pub ref_key : OutputRef → UtxoRef
ref_key r = (r.hash, as_u32 r.index)

unfoldable pub with_resolved_inputs : CardanoPayload → Map UtxoRef ResolvedOutput → CardanoPayload
with_resolved_inputs payload inputs = record payload { resolved_inputs = inputs }

module _ (pallas : Pallas) where
  unfoldable pub from_cbor : Bytes → Result CardanoLiftError CardanoPayload
  from_cbor bytes = do
    tx ← ok_or (pallas.decode_tx bytes) pallas_decode
    ok (record { raw = bytes; resolved_inputs = [] })

  unfoldable pub parsed : CardanoPayload → Result CardanoLiftError LedgerTx
  parsed payload = ok_or (pallas.decode_tx payload.raw) pallas_decode

  -- `Payload::id`: the transaction hash, or nothing where the payload does not decode
  unfoldable pub id : CardanoPayload → Bytes
  id payload = elim (pallas.decode_tx payload.raw) [ some tx ↦ tx.hash | none ↦ [] ]

  unfoldable pub resolve : CardanoPayload → UtxoRef → Result CardanoLiftError LedgerOutput
  resolve payload r = do
    resolved ← ok_or (Map.get payload.resolved_inputs r) (unresolved_input r)
    ok_or (pallas.decode_output resolved.era resolved.cbor) pallas_decode

  -- the resolved output of an input, where it is there and decodes
  abbrev pub resolved_output : CardanoPayload → UtxoRef → Option LedgerOutput
  resolved_output payload r = elim (Map.get payload.resolved_inputs r) [
    | none ↦ none
    | some resolved ↦ pallas.decode_output resolved.era resolved.cbor
  ]
