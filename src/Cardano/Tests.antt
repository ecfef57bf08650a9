-- ===== src/Cardano/Tests.antt =====
-- Runs on one transaction: an output at the wanted address, and a policy that is minted and burnt.
use tx3_lift.Prelude.{
  ◌↔◌, In, ◌≤◌, ℕ, pos, negsuc, ◌≡◌, refl, inl, true, false, not, ◌&&◌, none, some, [], ◌∷◌, All,
  get_elem?, is_empty, ok,
}
use tx3_lift.Prelude.Order.{nat_ord, list_ord, pair_ord}
use tx3_lift.Collections.Set.{contains, is_subset}
use tx3_lift.Lift.Tir.{
  Tx, utxo_refs, Output, Mint, address, assets, asset, no_assets, bytes, number, nothing,
}
use tx3_lift.Lift.Expr.{const_utxo_refs, const_address, const_policies_in}
use tx3_lift.Lift.Payload.{PayloadSummary, default_summary}
use tx3_lift.Cardano.Ledger.{
  PolicyAssets, datum_hash, LedgerOutput, LedgerTx, Pallas, CardanoPayload, parsed,
}
use tx3_lift.Cardano.Lifting.Tests.{lib, tii}
use tx3_lift.Lift.Fingerprint.Extract.{extract}
use tx3_lift.Cardano.Matching.Fresh.{match_tx-input_slots_distinct}
use tx3_lift.Cardano.Matching.Necessary.{match_tx-meets}
use tx3_lift.Cardano.Summarize.{summarize}
use tx3_lift.Cardano.Summarize.Sound.{summarize_exact}
use tx3_lift.Cardano.Signs.{IsPositive, HasAmount}
use tx3_lift.Cardano.Matching.Fits.{IsPaidTo}
use tx3_lift.Cardano.Matching.{MatchAssignment, match_tx}
use tx3_lift.Cardano.Matching.Assigned.{match_tx-output_slots, match_tx-output_slots_distinct}

abbrev to_bob : LedgerOutput
to_bob = record { address = some (2 ∷ []); datum = none; coin = 7; asset_policies = [] }

abbrev to_alice : LedgerOutput
to_alice = record {
  address = some (1 ∷ []);
  datum = some (datum_hash []);
  coin = 0;
  asset_policies = [];
}

abbrev ledger_tx : LedgerTx
ledger_tx = record {
  hash = [];
  inputs = record { hash = 5 ∷ []; index = 0 } ∷ [];
  outputs = to_bob ∷ to_alice ∷ [];
  mints = record { policy = 9 ∷ []; assets = ([], pos 4) ∷ (1 ∷ [], negsuc 0) ∷ [] } ∷ [];
  collateral = [];
  reference_inputs = [];
  required_signers = none;
  metadata_labels = none;
  validity_start = none;
  ttl = none;
}

abbrev pallas : Pallas
pallas = record {
  decode_tx = λ b. some ledger_tx;
  decode_output = λ era b. none;
  encode_data = λ d. [];
}

abbrev payload : CardanoPayload
payload = record { raw = []; resolved_inputs = [] }

abbrev nine : Mint
nine = record { amount = assets (asset (bytes (9 ∷ [])) nothing (number (pos 1)) no_assets) }

abbrev any_output : Output
any_output = record { address = nothing; amount = nothing; optional = false }

abbrev alice_output : Output
alice_output = record { address = address (1 ∷ []); amount = nothing; optional = false }

abbrev tir : Tx
tir = record {
  inputs = record { name = []; utxos = utxo_refs (record { txid = 5 ∷ []; index = 0 } ∷ []) } ∷ [];
  outputs = alice_output ∷ any_output ∷ [];
  mints = nine ∷ [];
  burns = nine ∷ [];
  references = [];
  collateral = 1;
  signers = none;
  metadata = [];
  validity = false;
}

abbrev assignment : MatchAssignment
assignment = record {
  tx_name = [];
  profile_name = [];
  input_map = (0 ∷ []) ∷ [];
  output_map = (1 ∷ []) ∷ (0 ∷ []) ∷ [];
  reference_map = [];
  mint_map = (0 ∷ []) ∷ [];
  burn_map = (0 ∷ []) ∷ [];
  collateral_map = [] ∷ [];
}

matched : match_tx pallas tir payload [] [] ≡ ok (some assignment)
unfolding match_tx parsed const_address const_policies_in const_utxo_refs
matched = refl

match_tx-output_slots_example :
    ((is_empty {A = ℕ} (1 ∷ []) && not alice_output.optional) ≡ false)
    × All
        (λ s.
          (x : LedgerOutput) × (get_elem? ledger_tx.outputs s ≡ some x)
          × IsPaidTo (const_address alice_output.address) x)
        (1 ∷ [])
match_tx-output_slots_example =
    match_tx-output_slots pallas tir payload [] [] ledger_tx assignment 0 alice_output (1 ∷ [])
      (refl, matched) refl refl

match_tx-output_slots_distinct_example : ◌≡◌ {A = ℕ} 1 1
match_tx-output_slots_distinct_example =
    match_tx-output_slots_distinct pallas tir payload [] [] ledger_tx assignment 1 1 0 (0 ∷ [])
      (0 ∷ []) (refl, matched) refl refl (inl refl) (inl refl)

abbrev summary : PayloadSummary
summary = record default_summary {
  output_addresses = (1 ∷ []) ∷ (2 ∷ []) ∷ [];
  output_addresses_with_datum = (1 ∷ []) ∷ [];
  input_refs = (5 ∷ [], 0) ∷ [];
  mint_policies = (9 ∷ []) ∷ [];
  burn_policies = (9 ∷ []) ∷ [];
  input_count = 1;
  output_count = 2;
  mint_count = 1;
  burn_count = 1;
}

summarized : summarize pallas payload ≡ ok summary
unfolding summarize parsed
summarized = refl

summarize_exact_example :
    (contains summary.mint_policies (9 ∷ []) ≡ true)
    ↔ ((p : PolicyAssets) × In p ledger_tx.mints × (HasAmount IsPositive p × (p.policy ≡ 9 ∷ [])))
summarize_exact_example =
    (summarize_exact pallas payload ledger_tx summary (9 ∷ []) refl summarized).2

match_tx-meets_example :
    ◌≤◌ (extract lib tii [] [] tir []).min_outputs 2
    × ◌≤◌ (extract lib tii [] [] tir []).min_mints 1
    × ◌≤◌ (extract lib tii [] [] tir []).min_burns 1
    × (is_subset (extract lib tii [] [] tir []).required_input_refs summary.input_refs ≡ true)
match_tx-meets_example =
    match_tx-meets lib tii [] pallas tir payload [] [] ledger_tx assignment summary (refl, matched)
      summarized

match_tx-input_slots_distinct_example : ◌≡◌ {A = ℕ} 0 0
match_tx-input_slots_distinct_example =
    match_tx-input_slots_distinct pallas tir payload [] [] ledger_tx assignment 0 0 0 (0 ∷ [])
      (0 ∷ []) (refl, matched) refl refl (inl refl) (inl refl)
