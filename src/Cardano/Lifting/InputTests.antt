-- ===== src/Cardano/Lifting/InputTests.antt =====
-- A transaction that spends a UTxO which the protocol names, and mints a policy that it names.
use tx3_lift.Cardano.Lifting.Mints.{shown, lift-mint_policy}
use tx3_lift.Cardano.Signs.{IsPositive, HasAmount}
use tx3_lift.Cardano.Matching.Fits.{IsAllowed}
use tx3_lift.Prelude.{pos, ◌≡◌, refl, inl, ℤ, false, none, some, [], ◌∷◌, In, ok}
use tx3_lift.Prelude.Order.{nat_ord, list_ord, pair_ord}
use tx3_lift.Lift.Tir.{
  Tx, Input, utxo_refs, Expression, Mint, asset, bytes, nothing, number, no_assets,
}
use tx3_lift.Lift.Expr.{const_policies_in, const_utxo_refs, expect_input_query}
use tx3_lift.Lift.Lifted.{MintAnnotation, InputAnnotation, Lifted, absent}
use tx3_lift.Lift.Specialize.{decode_bech32_address}
use tx3_lift.Cardano.Ledger.{LedgerTx, Pallas, CardanoPayload, parsed}
use tx3_lift.Cardano.Matching.{MatchAssignment, match_tx}
use tx3_lift.Cardano.Lifting.{lift, lift_mints}
use tx3_lift.Cardano.Lifting.Inputs.{InputFits, lift-InputFits}
use tx3_lift.Cardano.Lifting.Tests.{lib, assets, tii}
use tx3_lift.Cardano.Party.{match_party, update_signer_party_roles}

abbrev ledger_tx : LedgerTx
ledger_tx = record {
  hash = [];
  inputs = record { hash = 6 ∷ []; index = 1 } ∷ record { hash = 5 ∷ []; index = 0 } ∷ [];
  outputs = [];
  mints = record { policy = 9 ∷ []; assets = ([], pos 4) ∷ [] } ∷ [];
  collateral = [];
  reference_inputs = [];
  required_signers = none;
  metadata_labels = none;
  validity_start = none;
  ttl = none;
}

abbrev pallas : Pallas
pallas = record {
  decode_tx = λ b. some ledger_tx;
  decode_output = λ era b. none;
  encode_data = λ d. [];
}

abbrev payload : CardanoPayload
payload = record { raw = []; resolved_inputs = [] }

abbrev spends : Input
spends = record { name = 1 ∷ []; utxos = utxo_refs (record { txid = 5 ∷ []; index = 0 } ∷ []) }

abbrev nine : Mint
nine = record {
  amount = Expression.assets (asset (bytes (9 ∷ [])) nothing (number (pos 1)) no_assets);
}

abbrev tir : Tx
tir = record {
  inputs = spends ∷ [];
  outputs = [];
  mints = nine ∷ [];
  burns = [];
  references = [];
  collateral = 0;
  signers = none;
  metadata = [];
  validity = false;
}

abbrev assignment : MatchAssignment
assignment = record {
  tx_name = [];
  profile_name = [];
  input_map = (1 ∷ []) ∷ [];
  output_map = [];
  reference_map = [];
  mint_map = (0 ∷ []) ∷ [];
  burn_map = [];
  collateral_map = [];
}

matched : match_tx pallas tir payload [] [] ≡ ok (some assignment)
unfolding match_tx parsed const_utxo_refs const_policies_in
matched = refl

abbrev annotation : InputAnnotation ℤ
annotation = record {
  tir_input_name = 1 ∷ [];
  utxo_ref = (5 ∷ [], 0);
  address = [];
  party = none;
  assets = pos 0;
  datum = none;
  redeemer = none;
}

abbrev minted : MintAnnotation
minted = record {
  tir_mint_index = 0;
  policy = 9 ∷ [];
  policy_name = none;
  assets = ([], pos 4) ∷ [];
  redeemer = none;
}

abbrev lifted : Lifted ℤ
lifted = record {
  tx_id = [];
  protocol_name = [];
  tx_name = 3 ∷ [];
  profile_name = 4 ∷ [];
  tir_hash = 0;
  parties = (2 ∷ [], record { name = 2 ∷ []; address = 1 ∷ []; role = absent }) ∷ [];
  inputs = annotation ∷ [];
  references = [];
  outputs = [];
  mints = minted ∷ [];
  burns = [];
  policies = [];
  signers = [];
  metadata = [];
}

lifted_tx : lift lib pallas assets tii (3 ∷ []) (4 ∷ []) tir payload assignment ≡ ok lifted
unfolding lift parsed decode_bech32_address update_signer_party_roles match_party lift_mints
lifted_tx = refl

lift-InputFits_example :
    (i : Input) × In i tir.inputs
    × (◌≡◌ (1 ∷ []) i.name)
    × InputFits lib pallas assets payload
        (const_utxo_refs i.utxos)
        (expect_input_query i.utxos)
        annotation
lift-InputFits_example =
    lift-InputFits lib pallas assets tii (3 ∷ []) (4 ∷ []) tir payload [] [] assignment lifted
      matched lifted_tx annotation (inl refl)

lift-mint_policy_example :
    IsAllowed (const_policies_in nine.amount) minted.policy × HasAmount IsPositive (shown minted)
lift-mint_policy_example =
    lift-mint_policy lib pallas assets tii (3 ∷ []) (4 ∷ []) tir payload [] [] assignment lifted
      matched lifted_tx minted nine (inl refl) refl
