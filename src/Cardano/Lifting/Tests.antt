-- ===== src/Cardano/Lifting/Tests.antt =====
-- A protocol with one transaction and one profile, and a payload that pays its party: the match, the
-- lift and the routes. The library reads texts as they stand, and arguments change nothing.
use tx3_lift.Prelude.{ℤ, pos, ◌≡◌, refl, inl, true, false, none, some, [], ◌∷◌, Bytes, ok}
use tx3_lift.Prelude.Order.{nat_ord, list_ord, pair_ord}
use tx3_lift.Collections.Map
use tx3_lift.Lift.Tir.{
  Tx, Output, address, nothing, TiiFile, Profile, object, no_members, v1_beta0, hex, hash,
}
use tx3_lift.Lift.Expr.{const_address}
use tx3_lift.Lift.Library.{Library}
use tx3_lift.Lift.Lifted.{as_output, PartyAnnotation, OutputAnnotation, Lifted}
use tx3_lift.Cardano.Ledger.{datum_hash, LedgerOutput, LedgerTx, Pallas, CardanoPayload, parsed}
use tx3_lift.Cardano.Matching.{MatchAssignment, match_tx}
use tx3_lift.Cardano.Lifting.{AssetLibrary, lift, lift_mints}
use tx3_lift.Cardano.Party.{update_signer_party_roles, match_party, combine_role}
use tx3_lift.Lift.Specialize.{decode_bech32_address}
use tx3_lift.Cardano.Lifting.Outputs.{lift-output_address}
use tx3_lift.Cardano.Lifting.Mentions.{lift-party_role}
use tx3_lift.Cardano.Party.Roles.{role_of}
use tx3_lift.Cardano.Routing.{route_and_lift}
use tx3_lift.Cardano.Routing.First.{FirstOf, pairs, route_and_lift-FirstOf}

abbrev pub to_alice : LedgerOutput
to_alice = record {
  address = some (1 ∷ []);
  datum = some (datum_hash []);
  coin = 7;
  asset_policies = [];
}

abbrev pub ledger_tx : LedgerTx
ledger_tx = record {
  hash = [];
  inputs = [];
  outputs = to_alice ∷ [];
  mints = [];
  collateral = [];
  reference_inputs = [];
  required_signers = none;
  metadata_labels = none;
  validity_start = none;
  ttl = none;
}

abbrev pub pallas : Pallas
pallas = record {
  decode_tx = λ b. some ledger_tx;
  decode_output = λ era b. none;
  encode_data = λ d. [];
}

abbrev pub payload : CardanoPayload
payload = record { raw = []; resolved_inputs = [] }

abbrev pub alice_output : Output
alice_output = record { address = address (1 ∷ []); amount = nothing; optional = false }

abbrev pub tir : Tx
tir = record {
  inputs = [];
  outputs = alice_output ∷ [];
  mints = [];
  burns = [];
  references = [];
  collateral = 0;
  signers = none;
  metadata = [];
  validity = false;
}

abbrev pub lib : Library
lib = record {
  hex_decode = λ s. some s;
  bech32_decode = λ s. some s;
  parse_tir_version = λ s. some v1_beta0;
  from_bytes = λ b v. some tir;
  apply_args = λ t args. some t;
  serialize_tx = λ t. [];
  serialize_args = λ args. [];
}

abbrev pub assets : AssetLibrary ℤ
assets = record { no_assets = pos 0; from_naked_amount = λ n. n }

abbrev pub profile : Profile
profile = record { parties = (2 ∷ [], 1 ∷ []) ∷ []; environment = object no_members }

abbrev pub tii : TiiFile
tii = record {
  tii_version = [];
  protocol_name = [];
  transactions = (3 ∷ [], record { version = []; encoding = hex; content = [] }) ∷ [];
  profiles = (4 ∷ [], profile) ∷ [];
}

abbrev pub assignment : MatchAssignment
assignment = record {
  tx_name = 3 ∷ [];
  profile_name = 4 ∷ [];
  input_map = [];
  output_map = (0 ∷ []) ∷ [];
  reference_map = [];
  mint_map = [];
  burn_map = [];
  collateral_map = [];
}

abbrev pub alice_annotation : OutputAnnotation ℤ
alice_annotation = record {
  tir_output_index = 0;
  address = 1 ∷ [];
  party = some (2 ∷ []);
  assets = pos 7;
  datum = some (record { raw = []; decoded = hash []; schema_ref = none });
}

abbrev pub alice : PartyAnnotation
alice = record { name = 2 ∷ []; address = 1 ∷ []; role = as_output }

matched : match_tx pallas tir payload (4 ∷ []) (3 ∷ []) ≡ ok (some assignment)
unfolding match_tx parsed const_address
matched = refl

abbrev pub lifted : Lifted ℤ
lifted = record {
  tx_id = [];
  protocol_name = [];
  tx_name = 3 ∷ [];
  profile_name = 4 ∷ [];
  tir_hash = 0;
  parties = (2 ∷ [], alice) ∷ [];
  inputs = [];
  references = [];
  outputs = alice_annotation ∷ [];
  mints = [];
  burns = [];
  policies = [];
  signers = [];
  metadata = [];
}

pub lifted_tx : lift lib pallas assets tii (3 ∷ []) (4 ∷ []) tir payload assignment ≡ ok lifted
unfolding lift parsed decode_bech32_address update_signer_party_roles match_party lift_mints
    combine_role
lifted_tx = refl

lift-output_address_example : ◌≡◌ {A = Bytes} (1 ∷ []) (1 ∷ [])
unfolding const_address
lift-output_address_example =
    lift-output_address lib pallas assets tii (3 ∷ []) (4 ∷ []) tir payload (3 ∷ []) (4 ∷ [])
      assignment lifted matched lifted_tx alice_annotation alice_output (1 ∷ []) (inl refl) refl
      refl

lift-party_role_example : alice.role ≡ role_of false true false
lift-party_role_example =
    lift-party_role lib pallas assets tii (3 ∷ []) (4 ∷ []) tir payload assignment lifted (2 ∷ [])
      alice lifted_tx refl

route_and_lift-FirstOf_example :
    FirstOf lib pallas assets tii payload
      (pairs (Map.keys tii.transactions) (Map.keys tii.profiles))
      (route_and_lift lib pallas assets tii payload)
route_and_lift-FirstOf_example = (route_and_lift-FirstOf lib pallas assets tii payload).0
