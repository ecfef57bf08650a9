-- ===== src/Lift/Fingerprint/Extract.antt =====
-- crates/tx3-lift/src/fingerprint.rs: `extract` and what it calls, `fingerprint_for` and
-- `fingerprints_for_all`.
pub mod Exact
use Prim.Native.Nat.{bit_xor}
use tx3_lift.Prelude.{
  ℕ, zero, suc, ℤ, pos, negsuc, ◌+◌, ◌*◌, ◌%◌, Bool, true, false, not, Option, none, some, List, [],
  ◌∷◌, map, Result, ok, ◌>>=◌, Bytes, Text, length, u64_max, as_u16, clamp_u16, saturating_add_u16,
  leb, if◌then◌else◌,
}
use tx3_lift.Prelude.Order.{nat_ord, list_ord, pair_ord}
use tx3_lift.Collections.Set.{Set, insert, insert_all}
use tx3_lift.Collections.Map
use tx3_lift.Collections.Map.{Map}
use tx3_lift.Lift.Tir.{
  Tx, TiiFile, TirUtxoRef, Input, Output, Mint, Metadata, Expression, InputQuery, query_address,
  query_min_amount, query_many, ArgMap, v1_beta0,
}
use tx3_lift.Lift.Expr.{
  const_address, const_bytes, const_number, const_utxo_refs, const_policies_in, expect_input_query,
}
use tx3_lift.Lift.Error.{Error}
use tx3_lift.Lift.Library.{Library}
use tx3_lift.Lift.Payload.{UtxoRef}
use tx3_lift.Lift.Specialize.{lookup_tx, lookup_profile, args_from_profile, specialize}
use tx3_lift.Lift.Fingerprint.{Fingerprint}

-- the loop of `fnv1a_64`; `wrapping_mul` is on `u64`
fnv1a_step : ℕ → List ℕ → ℕ
fnv1a_step h [] = h
fnv1a_step h (b ∷ bs) = fnv1a_step ((bit_xor h b * 0x100000001b3) % (u64_max + 1)) bs

unfoldable pub fnv1a_64 : List ℕ → ℕ
unfolding fnv1a_step
fnv1a_64 bytes = fnv1a_step 0xcbf29ce484222325 bytes

abbrev pub to_ref : TirUtxoRef → UtxoRef
to_ref r = (r.txid, r.index)

abbrev pub insert_option : Option Bytes → Set Bytes → Set Bytes
insert_option none s = s
insert_option (some b) s = insert b s

-- the branch of `extract_inputs` for a query
abbrev pub extract_query : Option InputQuery → Fingerprint → Fingerprint
extract_query none fp = fp
extract_query (some q) fp = record fp {
  required_input_addresses =
      insert_option (const_address (query_address q)) fp.required_input_addresses;
  required_value_policies =
      insert_all (const_policies_in (query_min_amount q)) fp.required_value_policies;
  min_inputs = if query_many q then fp.min_inputs else saturating_add_u16 fp.min_inputs 1;
}

abbrev pub extract_input : Input → Fingerprint → Fingerprint
extract_input input fp = elim (const_utxo_refs input.utxos) [
  | some refs ↦ record fp {
    required_input_refs = insert_all (map to_ref refs) fp.required_input_refs;
    min_inputs = saturating_add_u16 fp.min_inputs (as_u16 (length refs));
  }
  | none ↦ extract_query (expect_input_query input.utxos) fp
]

pub extract_inputs : List Input → Fingerprint → Fingerprint
extract_inputs [] fp = fp
extract_inputs (input ∷ inputs) fp = extract_inputs inputs (extract_input input fp)

abbrev pub extract_output : Output → Fingerprint → Fingerprint
extract_output output fp = record fp {
  min_outputs = if output.optional then fp.min_outputs else saturating_add_u16 fp.min_outputs 1;
  required_output_addresses =
      insert_option (const_address output.address) fp.required_output_addresses;
  required_value_policies = insert_all (const_policies_in output.amount) fp.required_value_policies;
}

pub extract_outputs : List Output → Fingerprint → Fingerprint
extract_outputs [] fp = fp
extract_outputs (output ∷ outputs) fp = extract_outputs outputs (extract_output output fp)

-- the policies and the counter that `extract_mints` is given
pub extract_mints : List Mint → Set Bytes × ℕ → Set Bytes × ℕ
extract_mints [] (policies, counter) = (policies, counter)
extract_mints (mint ∷ mints) (policies, counter) =
    extract_mints mints
      (insert_all (const_policies_in mint.amount) policies, saturating_add_u16 counter 1)

abbrev pub extract_reference : Expression → Fingerprint → Fingerprint
extract_reference e fp = elim (const_utxo_refs e) [
  | some refs ↦ record fp {
    required_reference_refs = insert_all (map to_ref refs) fp.required_reference_refs;
    min_references = saturating_add_u16 fp.min_references (as_u16 (length refs));
  }
  | none ↦ record fp { min_references = saturating_add_u16 fp.min_references 1 }
]

pub extract_references : List Expression → Fingerprint → Fingerprint
extract_references [] fp = fp
extract_references (e ∷ es) fp = extract_references es (extract_reference e fp)

extract_signers : List Expression → Set Bytes → Set Bytes
extract_signers [] signers = signers
extract_signers (e ∷ es) signers = extract_signers es (insert_option (const_bytes e) signers)

abbrev signers_of : Option (List Expression) → List Expression
signers_of none = []
signers_of (some es) = es

-- `u64::try_from(n)` of a label
abbrev pub insert_label : Option ℤ → Set ℕ → Set ℕ
insert_label none labels = labels
insert_label (some (negsuc n)) labels = labels
insert_label (some (pos n)) labels = if leb n u64_max then insert n labels else labels

extract_labels : List Metadata → Set ℕ → Set ℕ
extract_labels [] labels = labels
extract_labels (m ∷ ms) labels = extract_labels ms (insert_label (const_number m.key) labels)

module _ (lib : Library) where
  -- the `Fingerprint` that `extract` starts from
  abbrev pub blank : TiiFile → Text → Text → Tx → ArgMap → Fingerprint
  blank tii tx_name profile_name specialized args = record {
    tii_version = tii.tii_version;
    tir_version = v1_beta0;
    protocol_name = tii.protocol_name;
    tx_name = tx_name;
    profile_name = profile_name;
    tir_hash = fnv1a_64 (lib.serialize_tx specialized);
    args_hash = fnv1a_64 (lib.serialize_args args);
    required_input_addresses = [];
    required_output_addresses = [];
    required_input_refs = [];
    required_reference_refs = [];
    required_mint_policies = [];
    required_burn_policies = [];
    required_value_policies = [];
    required_signers = [];
    required_metadata_labels = [];
    min_inputs = 0;
    min_outputs = 0;
    min_mints = 0;
    min_burns = 0;
    min_collateral = 0;
    min_references = 0;
    has_validity = false;
    extras = [];
  }

  pub with_mints : Tx → Fingerprint → Fingerprint
  unfolding extract_mints
  with_mints specialized fp =
      let (mint_policies, mints) =
        extract_mints specialized.mints (fp.required_mint_policies, fp.min_mints) in
      let (burn_policies, burns) =
        extract_mints specialized.burns (fp.required_burn_policies, fp.min_burns) in
      record fp {
        required_mint_policies = mint_policies;
        min_mints = mints;
        required_burn_policies = burn_policies;
        min_burns = burns;
      }

  pub with_rest : Tx → Fingerprint → Fingerprint
  unfolding extract_signers extract_labels
  with_rest specialized fp = record fp {
    min_collateral = clamp_u16 specialized.collateral;
    required_signers = extract_signers (signers_of specialized.signers) fp.required_signers;
    required_metadata_labels = extract_labels specialized.metadata fp.required_metadata_labels;
    has_validity = specialized.validity;
  }

  -- `extract` has no path to an error, so its `Ok` is left out
  unfoldable pub extract : TiiFile → Text → Text → Tx → ArgMap → Fingerprint
  unfolding with_mints with_rest extract_inputs extract_outputs extract_references
  extract tii tx_name profile_name specialized args = with_rest specialized (
      extract_references specialized.references (
        with_mints specialized (
          extract_outputs specialized.outputs
            (extract_inputs specialized.inputs (blank tii tx_name profile_name specialized args)))))

  unfoldable pub fingerprint_for : TiiFile → Text → Text → Result Error Fingerprint
  fingerprint_for tii tx_name profile_name = do
    profile ← lookup_profile tii profile_name
    args ← args_from_profile lib profile []
    tx ← lookup_tx tii tx_name
    specialized ← specialize lib tii tx_name profile_name []
    ok (extract tii tx_name profile_name specialized args)

  -- the inner and the outer loop of `fingerprints_for_all`
  for_profiles :
      TiiFile
      → Text
      → List Text
      → Map (Text × Text) Fingerprint
      → Result Error (Map (Text × Text) Fingerprint)
  for_profiles tii tx_name [] out = ok out
  for_profiles tii tx_name (profile_name ∷ names) out = do
    fp ← fingerprint_for tii tx_name profile_name
    for_profiles tii tx_name names (Map.insert (tx_name, profile_name) fp out)

  for_transactions :
      TiiFile
      → List Text
      → Map (Text × Text) Fingerprint
      → Result Error (Map (Text × Text) Fingerprint)
  unfolding for_profiles
  for_transactions tii [] out = ok out
  for_transactions tii (tx_name ∷ names) out = do
    out' ← for_profiles tii tx_name (Map.keys tii.profiles) out
    for_transactions tii names out'

  unfoldable pub fingerprints_for_all : TiiFile → Result Error (Map (Text × Text) Fingerprint)
  unfolding for_transactions
  fingerprints_for_all tii = for_transactions tii (Map.keys tii.transactions) []
