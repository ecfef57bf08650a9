-- ===== src/Cardano/Party.antt =====
-- crates/tx3-lift-cardano/src/lifting.rs: the parties of a profile, their roles, and the signers.
pub mod Roles
use mathlib.Core.Option
use tx3_lift.Prelude.{
  ℕ, zero, suc, ◌+◌, ◌/◌, ◌%◌, ℤ, pos, Bool, true, false, not, ◌||◌, Option, none, some, List, [],
  ◌∷◌, ◌++◌, map, Bytes, Text, text, Result, ok, err, ◌>>=◌, ok_or, map_err, get_elem?, length, ltb,
  nat_eqb, if◌then◌else◌,
}
use tx3_lift.Prelude.Order.{nat_ord, list_ord, pair_ord, ◌==◌}
use tx3_lift.Collections.Map
use tx3_lift.Collections.Map.{Map}
use tx3_lift.Lift.Tir.{Tx, Input, TiiFile, Expression, hash, nothing}
use tx3_lift.Lift.Error.{Error, unknown_profile}
use tx3_lift.Lift.Library.{Library}
use tx3_lift.Lift.Payload.{UtxoRef}
use tx3_lift.Lift.Specialize.{decode_bech32_address}
use tx3_lift.Lift.Lifted.{
  PartyRole, as_input, as_output, as_signer, multiple, absent, PartyAnnotation, TypedDatum,
  InputAnnotation, OutputAnnotation, MintAnnotation, SignerAnnotation, MetadataAnnotation, Lifted,
}
use tx3_lift.Cardano.Ledger.{
  OutputRef, LedgerOutput, DatumOption, inline_data, datum_hash, PolicyAssets, LedgerTx, Pallas,
  CardanoPayload, CardanoLiftError, core, pallas_decode, ref_key, parsed,
}
use tx3_lift.Cardano.Summarize.{items}
use tx3_lift.Cardano.Matching.{MatchAssignment}
use tx3_lift.Cardano.Datum.{plutus_data_to_expression}

abbrev pub Parties : Type 0
Parties = Map Text PartyAnnotation

unfoldable pub combine_role : PartyRole → PartyRole → PartyRole
combine_role absent next = next
combine_role as_input absent = as_input
combine_role as_input as_input = as_input
combine_role as_input next = multiple
combine_role as_output absent = as_output
combine_role as_output as_output = as_output
combine_role as_output next = multiple
combine_role as_signer absent = as_signer
combine_role as_signer as_signer = as_signer
combine_role as_signer next = multiple
combine_role multiple next = multiple

-- the first party at the address, in the order of the names; its role takes the new one in
unfoldable pub match_party : Bytes → Parties → PartyRole → Option Text × Parties
match_party address [] role = (none, [])
match_party address ((name, party) ∷ parties) role =
    let (found, parties') = match_party address parties role in
    if party.address == address
    then (some name, (name, record party { role = combine_role party.role role }) ∷ parties)
    else (found, (name, party) ∷ parties')

abbrev pub or_empty : Option Bytes → Bytes
or_empty none = []
or_empty (some b) = b

-- `address.windows(keyhash.len()).any(|w| w == keyhash)`, for a key hash that is not empty
abbrev pub starts_with : Bytes → Bytes → Bool
starts_with address [] = true
starts_with [] (k ∷ ks) = false
starts_with (a ∷ as') (k ∷ ks) =
    let rest = starts_with as' ks in if nat_eqb a k then rest else false

abbrev pub has_window : Bytes → Bytes → Bool
has_window [] keyhash = starts_with [] keyhash
has_window (a ∷ as') keyhash = starts_with (a ∷ as') keyhash || has_window as' keyhash

unfoldable pub address_contains_keyhash : Bytes → Bytes → Bool
address_contains_keyhash address keyhash =
    if ltb (length address) (1 + length keyhash) then false else has_window address keyhash

-- `parties.iter().find_map(…)`
abbrev pub signer_party : Parties → Bytes → Option Text
signer_party [] keyhash = none
signer_party ((name, party) ∷ parties) keyhash =
    if address_contains_keyhash party.address keyhash
    then some name
    else signer_party parties keyhash

abbrev pub lift_signer : Parties → Bytes → SignerAnnotation
lift_signer parties keyhash = record { key_hash = keyhash; party = signer_party parties keyhash }

unfoldable pub lift_signers : LedgerTx → Parties → List SignerAnnotation
lift_signers tx parties = map (lift_signer parties) (items tx.required_signers)

-- `if let Some(party) = parties.get_mut(name) { party.role = … }`
abbrev pub add_role : PartyRole → Text → Parties → Parties
add_role role name [] = []
add_role role name ((n, party) ∷ parties) =
    let rest = add_role role name parties in
    if n == name
    then (n, record party { role = combine_role party.role role }) ∷ parties
    else (n, party) ∷ rest

abbrev pub update_signer_role : Option Text → Parties → Parties
update_signer_role none parties = parties
update_signer_role (some name) parties = add_role as_signer name parties

unfoldable pub update_signer_party_roles : List SignerAnnotation → Parties → Parties
update_signer_party_roles [] parties = parties
update_signer_party_roles (s ∷ signers) parties =
    update_signer_party_roles signers (update_signer_role s.party parties)
