-- ===== src/Tracker/Messages.antt =====
-- bin/tracker/src/process.rs: what the code reads of an event, of its block and of the resolved inputs.
use tx3_lift.Prelude.{ℕ, Option, none, some, List, [], ◌∷◌, ◌++◌, Bytes, Text, if◌then◌else◌}
use tx3_lift.Prelude.Order.{nat_ord, list_ord, pair_ord, ◌==◌}
use tx3_lift.Collections.Map
use tx3_lift.Collections.Map.{Map}
use tx3_lift.Lift.Payload.{UtxoRef}
use tx3_lift.Lift.Lifted.{Lifted}
use tx3_lift.Cardano.Ledger.{ResolvedOutput, Era}

-- what the code reads of the messages of utxorpc
pub record WatchedInput : Type 0 where
  pub tx_hash : Bytes
  pub output_index : ℕ
  pub as_output : Option (Option Bytes)

pub record WatchedTx : Type 0 where
  pub hash : Bytes
  pub inputs : List WatchedInput
  pub reference_inputs : List WatchedInput

pub record AnyChainTx : Type 0 where
  pub chain : Option WatchedTx
  pub block : Option Bytes

-- what the code reads of a `MultiEraBlock`: a transaction is its hash and its encoding,
-- `header_slot` and `previous_hash` are those of its header
pub record Block : Type 0 where
  pub era : Era
  pub hash : Bytes
  pub slot : ℕ
  pub header_slot : ℕ
  pub previous_hash : Option Bytes
  pub txs : List (Bytes × Bytes)

-- the decoder of blocks, and `serde_json::to_string` of a lifted transaction
pub record ProcessLibrary (A : Type 0) : Type 0 where
  pub decode_block : Bytes → Option Block
  pub lifted_to_json : Lifted A → Option Text

-- the loop of `collect_resolved_inputs`
abbrev pub add_resolved_inputs :
    Era → List WatchedInput → Map UtxoRef ResolvedOutput → Map UtxoRef ResolvedOutput
add_resolved_inputs era [] out = out
add_resolved_inputs era (input ∷ inputs) out =
    add_resolved_inputs era inputs (elim input.as_output [
      | none ↦ out
      | some as_output ↦ elim as_output [
        | none ↦ out
        | some cbor ↦
            Map.insert (input.tx_hash, input.output_index) (record { era = era; cbor = cbor }) out
      ]
    ])

unfoldable pub collect_resolved_inputs : WatchedTx → Era → Map UtxoRef ResolvedOutput
collect_resolved_inputs tx era = add_resolved_inputs era (tx.inputs ++ tx.reference_inputs) []

-- `txs.iter().find(|t| t.hash() == target_hash)`
abbrev pub find_tx : List (Bytes × Bytes) → Bytes → Option Bytes
find_tx [] target = none
find_tx ((hash, encoded) ∷ txs) target = if hash == target then some encoded else find_tx txs target
