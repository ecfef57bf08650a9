-- ===== src/Cardano/Lifting/Parts.antt =====
-- crates/tx3-lift-cardano/src/lifting.rs: what a successful `lift` is put together from.
use tx3_lift.Prelude.{
  ◌≡◌, sym, ap, ◌∙◌, Option, none, some, List, [], Text, ok, ok_inj, ok_or, >>=-ok,
}
use tx3_lift.Prelude.Order.{nat_ord, list_ord}
use tx3_lift.Collections.Map
use tx3_lift.Lift.Tir.{Tx, TiiFile, Profile}
use tx3_lift.Lift.Error.{unknown_profile}
use tx3_lift.Lift.Library.{Library}
use tx3_lift.Lift.Lifted.{InputAnnotation, Lifted}
use tx3_lift.Cardano.Ledger.{LedgerTx, Pallas, CardanoPayload, core, parsed, pallas_decode}
use tx3_lift.Cardano.Matching.{MatchAssignment}
use tx3_lift.Cardano.Lifting.{
  AssetLibrary, absent_parties, lift_inputs, lift_inputs_simple, lift_outputs, lift_mints, lift,
}
use tx3_lift.Cardano.Party.{Parties, lift_signers, update_signer_party_roles}

module _ {A : Type 0} (lib : Library) (pallas : Pallas) (assets : AssetLibrary A) (tii : TiiFile)
    (tx_name profile_name : Text) (specialized : Tx) (payload : CardanoPayload)
    (assignment : MatchAssignment) (lifted : Lifted A) where
  -- the intermediate values of a `lift` that succeeds
  pub record Parts : Type 0 where
    pub tx : LedgerTx
    pub profile : Profile
    pub parties : Parties
    pub inputs : List (InputAnnotation A)
    pub parties1 : Parties
    pub decodes : pallas.decode_tx payload.raw ≡ some tx
    pub start : absent_parties lib pallas assets profile.parties [] ≡ ok parties
    pub inputs_lifted :
        lift_inputs lib pallas assets payload tx specialized 0 assignment.input_map parties
        ≡ ok (inputs, parties1)
    pub tx_id_field : lifted.tx_id ≡ tx.hash
    pub protocol_name_field : lifted.protocol_name ≡ tii.protocol_name
    pub tx_name_field : lifted.tx_name ≡ tx_name
    pub profile_name_field : lifted.profile_name ≡ profile_name
    pub inputs_field : lifted.inputs ≡ inputs
    pub outputs_field :
        lifted.outputs ≡ (lift_outputs lib pallas assets tx 0 assignment.output_map parties1).0
    pub mints_field : lifted.mints ≡ lift_mints 0 tx assignment.mint_map
    pub burns_field : lifted.burns ≡ lift_mints 0 tx assignment.burn_map
    pub signers_field :
        lifted.signers
        ≡ lift_signers tx (lift_outputs lib pallas assets tx 0 assignment.output_map parties1).1
    pub parties_field :
        lifted.parties
        ≡ update_signer_party_roles lifted.signers
            (lift_outputs lib pallas assets tx 0 assignment.output_map parties1).1

  ok_or-some : {E B : Type 0} (o : Option B) (e : E) (b : B) → ok_or o e ≡ ok b → o ≡ some b
  ok_or-some none e b h = cc
  ok_or-some (some a) e b h = ap some (ok_inj h)

  pub lift-Parts :
      lift lib pallas assets tii tx_name profile_name specialized payload assignment ≡ ok lifted
      → Parts
  unfolding lift parsed
  lift-Parts h =
      let (tx, a, h1) = >>=-ok (parsed pallas payload) _ lifted h in
      let (profile, b, h2) =
        >>=-ok (ok_or (Map.get tii.profiles profile_name) (core (unknown_profile profile_name))) _
          lifted h1 in
      let (parties, c, h3) =
        >>=-ok (absent_parties lib pallas assets profile.parties []) _ lifted h2 in
      let (lifted_inputs, d, h4) =
        >>=-ok (lift_inputs lib pallas assets payload tx specialized 0 assignment.input_map parties)
          _ lifted h3 in
      let (references, e, h5) =
        >>=-ok (lift_inputs_simple lib pallas assets payload tx 0 assignment.reference_map) _ lifted
          h4 in
      let same = ok_inj h5 in
      record {
        tx = tx;
        profile = profile;
        parties = parties;
        inputs = lifted_inputs.0;
        parties1 = lifted_inputs.1;
        decodes = ok_or-some (pallas.decode_tx payload.raw) pallas_decode tx a;
        start = c;
        inputs_lifted = d;
        tx_id_field = sym (ap (λ (l : Lifted A). l.tx_id) same);
        protocol_name_field = sym (ap (λ (l : Lifted A). l.protocol_name) same);
        tx_name_field = sym (ap (λ (l : Lifted A). l.tx_name) same);
        profile_name_field = sym (ap (λ (l : Lifted A). l.profile_name) same);
        inputs_field = sym (ap (λ (l : Lifted A). l.inputs) same);
        outputs_field = sym (ap (λ (l : Lifted A). l.outputs) same);
        mints_field = sym (ap (λ (l : Lifted A). l.mints) same);
        burns_field = sym (ap (λ (l : Lifted A). l.burns) same);
        signers_field = sym (ap (λ (l : Lifted A). l.signers) same);
        parties_field =
            sym (ap (λ (l : Lifted A). l.parties) same)
            ∙ ap
                (λ xs.
                  update_signer_party_roles xs
                    (lift_outputs lib pallas assets tx 0 assignment.output_map lifted_inputs.1).1)
                (ap (λ (l : Lifted A). l.signers) same);
      }
