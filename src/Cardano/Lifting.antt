-- ===== src/Cardano/Lifting.antt =====
-- crates/tx3-lift-cardano/src/lifting.rs: the annotations of a matched transaction. A loop returns the
-- annotations that it pushes, and the map of parties where it changes their roles.
pub mod Parts
pub mod Digits
pub mod Takes
pub mod Mentions
pub mod Outputs
pub mod Inputs
pub mod Mints
pub mod Tests
mod InputTests
use mathlib.Core.Option
use tx3_lift.Prelude.{
  ℕ, zero, suc, ◌+◌, ◌/◌, ◌%◌, ℤ, pos, Bool, true, false, not, ◌||◌, Option, none, some, List, [],
  ◌∷◌, ◌++◌, map, Bytes, Text, text, Result, ok, err, ◌>>=◌, ok_or, map_err, get_elem?, length, ltb,
  nat_eqb, if◌then◌else◌,
}
use tx3_lift.Prelude.Order.{nat_ord, list_ord, pair_ord, ◌==◌}
use tx3_lift.Collections.Map
use tx3_lift.Collections.Map.{Map}
use tx3_lift.Lift.Tir.{Tx, Input, TiiFile, Expression, hash, nothing}
use tx3_lift.Lift.Error.{Error, unknown_profile}
use tx3_lift.Lift.Library.{Library}
use tx3_lift.Lift.Payload.{UtxoRef}
use tx3_lift.Lift.Specialize.{decode_bech32_address}
use tx3_lift.Lift.Lifted.{
  PartyRole, as_input, as_output, as_signer, multiple, absent, PartyAnnotation, TypedDatum,
  InputAnnotation, OutputAnnotation, MintAnnotation, SignerAnnotation, MetadataAnnotation, Lifted,
}
use tx3_lift.Cardano.Ledger.{
  OutputRef, LedgerOutput, DatumOption, inline_data, datum_hash, PolicyAssets, LedgerTx, Pallas,
  CardanoPayload, CardanoLiftError, core, pallas_decode, ref_key, parsed,
}
use tx3_lift.Cardano.Party.{
  Parties, combine_role, match_party, or_empty, starts_with, has_window, address_contains_keyhash,
  signer_party, lift_signer, lift_signers, add_role, update_signer_role, update_signer_party_roles,
}
use tx3_lift.Cardano.Summarize.{items}
use tx3_lift.Cardano.Matching.{MatchAssignment}
use tx3_lift.Cardano.Datum.{plutus_data_to_expression}

-- `CanonicalAssets` of tx3_tir: `default` and `from_naked_amount`
pub record AssetLibrary (A : Type 0) : Type 0 where
  pub no_assets : A
  pub from_naked_amount : ℤ → A

-- the decimal digits of `n`; `n / 10 < n`, so the fuel `n + 1` is enough
abbrev pub decimal_digits : ℕ → ℕ → Text
decimal_digits zero n = []
decimal_digits (suc fuel) n =
    let front = decimal_digits fuel (n / 10) in
    if ltb n 10 then (n + b'0') ∷ [] else front ++ ((n % 10 + b'0') ∷ [])

-- `format!("ref_{i}")`
abbrev pub reference_name : ℕ → Text
reference_name i = text "ref_" ++ decimal_digits (suc i) i

pub lift_metadata : LedgerTx → List MetadataAnnotation
lift_metadata tx =
    map (λ label. record { label = label; value = nothing }) (items tx.metadata_labels)

-- `collect_policy_names` walks nothing yet
abbrev pub collect_policy_names : Tx → Map Bytes Text
collect_policy_names specialized = []

abbrev pub lift_mint : ℕ → PolicyAssets → MintAnnotation
lift_mint tir_idx p = record {
  tir_mint_index = tir_idx;
  policy = p.policy;
  policy_name = none;
  assets = p.assets;
  redeemer = none;
}

-- the slots of one item; a slot that is not there is passed over
abbrev pub lift_mint_slots : ℕ → LedgerTx → List ℕ → List MintAnnotation
lift_mint_slots tir_idx tx [] = []
lift_mint_slots tir_idx tx (slot ∷ slots) = elim (get_elem? tx.mints slot) [
  | some p ↦ lift_mint tir_idx p ∷ lift_mint_slots tir_idx tx slots
  | none ↦ lift_mint_slots tir_idx tx slots
]

unfoldable pub lift_mints : ℕ → LedgerTx → List (List ℕ) → List MintAnnotation
lift_mints tir_idx tx [] = []
lift_mints tir_idx tx (slots ∷ map') =
    lift_mint_slots tir_idx tx slots ++ lift_mints (suc tir_idx) tx map'

module _ {A : Type 0} (lib : Library) (pallas : Pallas) (assets : AssetLibrary A) where
  abbrev pub collect_assets : LedgerOutput → A
  collect_assets output =
      if nat_eqb output.coin 0 then assets.no_assets else assets.from_naked_amount (pos output.coin)

  abbrev pub decode_inline_datum : LedgerOutput → Option TypedDatum
  decode_inline_datum output = elim output.datum [
    | none ↦ none
    | some d ↦ elim d [
      | inline_data plutus ↦ some (record {
        raw = pallas.encode_data plutus;
        decoded = plutus_data_to_expression plutus;
        schema_ref = none;
      })
      | datum_hash h ↦ some (record { raw = h; decoded = hash h; schema_ref = none })
    ]
  ]

  -- address, assets and datum of an input: those of its resolved output, or empty ones
  resolved_parts :
      CardanoPayload → UtxoRef → Result CardanoLiftError (Bytes × A × Option TypedDatum)
  resolved_parts payload key = elim (Map.get payload.resolved_inputs key) [
    | none ↦ ok ([], assets.no_assets, none)
    | some resolved ↦ elim (pallas.decode_output resolved.era resolved.cbor) [
      | none ↦ err pallas_decode
      | some output ↦
          ok (or_empty output.address, collect_assets output, decode_inline_datum output)
    ]
  ]

  abbrev pub annotate :
      Text → UtxoRef → Option Text → Bytes × A × Option TypedDatum → InputAnnotation A
  annotate name key party (address, value, datum) = record {
    tir_input_name = name;
    utxo_ref = key;
    address = address;
    party = party;
    assets = value;
    datum = datum;
    redeemer = none;
  }

  lift_input_slots :
      CardanoPayload
      → LedgerTx
      → Text
      → List ℕ
      → Parties
      → Result CardanoLiftError (List (InputAnnotation A) × Parties)
  lift_input_slots payload tx name [] parties = ok ([], parties)
  lift_input_slots payload tx name (slot ∷ slots) parties = elim (get_elem? tx.inputs slot) [
    | none ↦ lift_input_slots payload tx name slots parties
    | some oref ↦ do
      parts ← resolved_parts payload (ref_key oref)
      let (party, parties') = match_party parts.0 parties as_input
      (rest, parties'') ← lift_input_slots payload tx name slots parties'
      ok (annotate name (ref_key oref) party parts ∷ rest, parties'')
  ]

  -- the address of the query is compared with the input's, and nothing follows from it
  pub lift_inputs :
      CardanoPayload
      → LedgerTx
      → Tx
      → ℕ
      → List (List ℕ)
      → Parties
      → Result CardanoLiftError (List (InputAnnotation A) × Parties)
  unfolding resolved_parts lift_input_slots
  lift_inputs payload tx specialized tir_idx [] parties = ok ([], parties)
  lift_inputs payload tx specialized tir_idx (slots ∷ map') parties =
      elim (get_elem? specialized.inputs tir_idx) [
        | none ↦ lift_inputs payload tx specialized (suc tir_idx) map' parties
        | some tir_input ↦ do
          (found, parties') ← lift_input_slots payload tx tir_input.name slots parties
          (rest, parties'') ← lift_inputs payload tx specialized (suc tir_idx) map' parties'
          ok (found ++ rest, parties'')
      ]

  lift_reference_slots :
      CardanoPayload → LedgerTx → Text → List ℕ → Result CardanoLiftError (List (InputAnnotation A))
  lift_reference_slots payload tx name [] = ok []
  lift_reference_slots payload tx name (slot ∷ slots) = elim (get_elem? tx.reference_inputs slot) [
    | none ↦ lift_reference_slots payload tx name slots
    | some oref ↦ do
      parts ← resolved_parts payload (ref_key oref)
      rest ← lift_reference_slots payload tx name slots
      ok (annotate name (ref_key oref) none parts ∷ rest)
  ]

  pub lift_inputs_simple :
      CardanoPayload
      → LedgerTx
      → ℕ
      → List (List ℕ)
      → Result CardanoLiftError (List (InputAnnotation A))
  unfolding lift_reference_slots
  lift_inputs_simple payload tx i [] = ok []
  lift_inputs_simple payload tx i (slots ∷ map') = do
    found ← lift_reference_slots payload tx (reference_name i) slots
    rest ← lift_inputs_simple payload tx (suc i) map'
    ok (found ++ rest)

  abbrev pub lift_output : ℕ → LedgerOutput → Option Text → OutputAnnotation A
  lift_output tir_idx output party = record {
    tir_output_index = tir_idx;
    address = or_empty output.address;
    party = party;
    assets = collect_assets output;
    datum = decode_inline_datum output;
  }

  pub lift_output_slots : LedgerTx → ℕ → List ℕ → Parties → List (OutputAnnotation A) × Parties
  lift_output_slots tx tir_idx [] parties = ([], parties)
  lift_output_slots tx tir_idx (slot ∷ slots) parties = elim (get_elem? tx.outputs slot) [
    | none ↦ lift_output_slots tx tir_idx slots parties
    | some output ↦
        let (party, parties') = match_party (or_empty output.address) parties as_output in
        let (rest, parties'') = lift_output_slots tx tir_idx slots parties' in
        (lift_output tir_idx output party ∷ rest, parties'')
  ]

  -- no path of the loop is an error, so its `Ok` is left out
  pub lift_outputs : LedgerTx → ℕ → List (List ℕ) → Parties → List (OutputAnnotation A) × Parties
  lift_outputs tx tir_idx [] parties = ([], parties)
  lift_outputs tx tir_idx (slots ∷ map') parties =
      let (found, parties') = lift_output_slots tx tir_idx slots parties in
      let (rest, parties'') = lift_outputs tx (suc tir_idx) map' parties' in
      (found ++ rest, parties'')

  -- the loop over the parties of the profile
  pub absent_parties : List (Text × Text) → Parties → Result CardanoLiftError Parties
  absent_parties [] parties = ok parties
  absent_parties ((name, address) ∷ rest) parties = do
    b ← map_err core (decode_bech32_address lib address)
    absent_parties rest
        (Map.insert name (record { name = name; address = b; role = absent }) parties)

  unfoldable pub lift :
      TiiFile
      → Text
      → Text
      → Tx
      → CardanoPayload
      → MatchAssignment
      → Result CardanoLiftError (Lifted A)
  unfolding absent_parties lift_inputs lift_inputs_simple lift_output_slots lift_outputs
      lift_signers lift_metadata
  lift tii tx_name profile_name specialized payload assignment = do
    tx ← parsed pallas payload
    profile ← ok_or (Map.get tii.profiles profile_name) (core (unknown_profile profile_name))
    parties ← absent_parties profile.parties []
    (inputs, parties1) ← lift_inputs payload tx specialized 0 assignment.input_map parties
    references ← lift_inputs_simple payload tx 0 assignment.reference_map
    let (outputs, parties2) = lift_outputs tx 0 assignment.output_map parties1
    let signers = lift_signers tx parties2
    ok (record {
      tx_id = tx.hash;
      protocol_name = tii.protocol_name;
      tx_name = tx_name;
      profile_name = profile_name;
      tir_hash = 0;
      parties = update_signer_party_roles signers parties2;
      inputs = inputs;
      references = references;
      outputs = outputs;
      mints = lift_mints 0 tx assignment.mint_map;
      burns = lift_mints 0 tx assignment.burn_map;
      policies = collect_policy_names specialized;
      signers = signers;
      metadata = lift_metadata tx;
    })
