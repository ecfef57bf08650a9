-- ===== src/Lift/Tests.antt =====
-- Runs of the core on a small protocol, with a small library: a character of hex stands for itself,
-- an address is read as its own bytes, and arguments change nothing.
use tx3_lift.Prelude.{
  ◌*◌, ◌≡◌, refl, inl, inr, true, false, Option, none, some, [], ◌∷◌, Bytes, Text, any, length,
  arith, pos, text, Option-cases, is_empty, if◌then◌else◌,
}
use tx3_lift.Prelude.Order.{nat_ord, list_ord, pair_ord}
use tx3_lift.Collections.Set.{contains}
use tx3_lift.Collections.Map
use tx3_lift.Lift.Tir.{
  Tx, Input, Output, Expression, address, list, cons, nil, number, eval_param, set_to, utxo_refs,
  nothing, TiiFile, Profile, object, member, no_members, text_value, v1_beta0, ArgMap, arg_address,
  arg_int, arg_string,
}
use tx3_lift.Lift.Expr.{classify, const, const_address, const_utxo_refs, const_policies_in}
use tx3_lift.Lift.Expr.Constants.{classify-const_iff}
use tx3_lift.Lift.Library.{Library, HexHalves}
use tx3_lift.Lift.Payload.{PayloadSummary, default_summary}
use tx3_lift.Lift.Fingerprint.{Fingerprint, matches}
use tx3_lift.Lift.Fingerprint.Matches.{Satisfies, matches_iff}
use tx3_lift.Lift.Fingerprint.Extract.{extract}
use tx3_lift.Lift.Fingerprint.Extract.Exact.{extract_exact, matches_needs_output, input_names_ref}
use tx3_lift.Lift.Specialize.{args_from_profile, decode_bech32_address}
use tx3_lift.Lift.Specialize.Arguments.{get-args_from_profile}
use tx3_lift.Lift.Anchors.{ProtocolAnchors, hits, gates, from_profile, parse_utxo_ref, parse_policy}
use tx3_lift.Lift.Anchors.Hits.{gates_iff}
use tx3_lift.Lift.Anchors.Parse.{Shapes, from_profile-Shapes}

-- the second character of each pair
abbrev halve : Text → Option Bytes
halve [] = some []
halve (a ∷ []) = none
halve (a ∷ b ∷ s) = let rest = halve s in elim rest [ none ↦ none | some bs ↦ some (b ∷ bs) ]

length-halve : (s : Text) (b : Bytes) → halve s ≡ some b → length s ≡ 2 * length b
length-halve [] b h = ground arith
length-halve (a ∷ []) b h = ground arith
length-halve (a ∷ c ∷ s) b h = elim (Option-cases (halve s)) [
  | inl n ↦ absurd (cc)
  | inr (bs, e) ↦ ground (arith, length-halve s bs e)
]

abbrev to_alice : Output
to_alice = record { address = address (1 ∷ []); amount = nothing; optional = true }

abbrev spends : Input
spends = record { name = []; utxos = utxo_refs (record { txid = 5 ∷ []; index = 0 } ∷ []) }

abbrev tir : Tx
tir = record {
  inputs = spends ∷ [];
  outputs = to_alice ∷ [];
  mints = [];
  burns = [];
  references = [];
  collateral = 0;
  signers = none;
  metadata = [];
  validity = false;
}

abbrev lib : Library
lib = record {
  hex_decode = halve;
  bech32_decode = λ s. if is_empty s then none else some s;
  parse_tir_version = λ s. some v1_beta0;
  from_bytes = λ b v. some tir;
  apply_args = λ t args. some t;
  serialize_tx = λ t. [];
  serialize_args = λ args. [];
}

lib-HexHalves : HexHalves lib
lib-HexHalves = record { halves = length-halve }

-- expressions
abbrev resolved : Expression
resolved = eval_param (set_to (address (1 ∷ [])))

classify-const_iff_example : classify (list (cons (number (pos 1)) (cons resolved nil))) ≡ const
classify-const_iff_example =
    (classify-const_iff (list (cons (number (pos 1)) (cons resolved nil)))).1 (tt, (tt, tt))

-- a payload that spends the input, and pays somebody else
abbrev elsewhere : PayloadSummary
elsewhere = record default_summary {
  input_refs = (5 ∷ [], 0) ∷ [];
  output_addresses = (2 ∷ []) ∷ [];
  input_count = 1;
  output_count = 1;
}

abbrev at_alice : PayloadSummary
at_alice = record elsewhere { output_addresses = (1 ∷ []) ∷ [] }

abbrev tii : TiiFile
tii = record { tii_version = []; protocol_name = []; transactions = []; profiles = [] }

abbrev fingerprint : Fingerprint
fingerprint = extract lib tii [] [] tir []

matches_iff_example : Satisfies fingerprint at_alice
unfolding extract matches const_utxo_refs const_address const_policies_in
matches_iff_example = (matches_iff fingerprint at_alice).0 refl

extract_exact_example :
    contains fingerprint.required_input_refs (5 ∷ [], 0)
    ≡ any (input_names_ref (5 ∷ [], 0)) tir.inputs
extract_exact_example = (extract_exact lib tii [] [] tir []).0 (5 ∷ [], 0)

matches_needs_output_example : matches fingerprint elsewhere ≡ false
unfolding const_address
matches_needs_output_example =
    matches_needs_output lib tii [] [] tir [] elsewhere to_alice (1 ∷ []) (inl refl) refl refl

-- anchors
abbrev policy : Text
policy = text "00000000000000000000000000000000000000000000000000000000"

abbrev profile : Profile
profile = record {
  parties = (text "alice", 1 ∷ []) ∷ [];
  environment = object (member (text "policy") (text_value policy) no_members);
}

abbrev anchors : ProtocolAnchors
anchors = record {
  addresses = (1 ∷ []) ∷ [];
  utxo_refs = [];
  policies =
      (48 ∷ 48 ∷ 48 ∷ 48 ∷ 48 ∷ 48 ∷ 48 ∷ 48 ∷ 48 ∷ 48 ∷ 48 ∷ 48 ∷ 48 ∷ 48 ∷ 48 ∷ 48 ∷ 48 ∷ 48 ∷ 48
        ∷ 48 ∷ 48 ∷ 48 ∷ 48 ∷ 48 ∷ 48 ∷ 48 ∷ 48 ∷ 48 ∷ [])
      ∷ [];
}

from_profile-Shapes_example : Shapes anchors
unfolding from_profile decode_bech32_address parse_utxo_ref parse_policy
from_profile-Shapes_example = from_profile-Shapes lib lib-HexHalves profile anchors refl

-- the payment to alice is a hit and no engagement; one with a datum is an engagement
payment_only : hits at_alice anchors ≡ record { gating = 0; total = 1 }
unfolding hits
payment_only = refl

abbrev with_datum_at_alice : PayloadSummary
with_datum_at_alice = record at_alice { output_addresses_with_datum = (1 ∷ []) ∷ [] }

gates_iff_example : gates (hits with_datum_at_alice anchors) ≡ true
gates_iff_example = (gates_iff with_datum_at_alice anchors).1 (inl (1 ∷ [], inl refl, inr refl))

-- arguments
abbrev alice_args : ArgMap
alice_args =
    (text "alice", arg_address (1 ∷ []))
    ∷ (text "fee", arg_int (pos 2))
    ∷ (text "policy", arg_string policy)
    ∷ []

get-args_from_profile_example : Map.get alice_args (text "fee") ≡ some (arg_int (pos 2))
unfolding args_from_profile
get-args_from_profile_example =
    (get-args_from_profile lib profile ((text "fee", arg_int (pos 2)) ∷ []) alice_args (text "fee")
        refl).0
      (arg_int (pos 2)) refl
