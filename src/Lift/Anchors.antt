-- ===== src/Lift/Anchors.antt =====
-- crates/tx3-lift/src/anchors.rs: the on-chain identifiers of a profile, and how a payload hits them.
pub mod Hits
pub mod Parse
use tx3_lift.Prelude.{
  ℕ, suc, ◌+◌, ◌-◌, ◌*◌, not, Bool, true, false, ◌&&◌, ◌||◌, Option, none, some, List, [], ◌∷◌,
  Result, ok, ◌>>=◌, Bytes, Text, all, is_empty, length, nat_eqb, leb, ltb, u32_max, if◌then◌else◌,
}
use tx3_lift.Prelude.Order.{nat_ord, list_ord, pair_ord}
use tx3_lift.Collections.Set.{Set, contains, insert}
use tx3_lift.Collections.Map
use tx3_lift.Lift.Tir.{Profile, Json, object, text_value, entries}
use tx3_lift.Lift.Error.{Error}
use tx3_lift.Lift.Library.{Library}
use tx3_lift.Lift.Specialize.{decode_bech32_address}
use tx3_lift.Lift.Payload.{PayloadSummary, UtxoRef}

pub record AnchorHits : Type 0 where
  pub gating : ℕ
  pub total : ℕ

unfoldable pub gates : AnchorHits → Bool
gates h = ltb 0 h.gating

pub record ProtocolAnchors : Type 0 where
  pub addresses : Set Bytes
  pub utxo_refs : Set UtxoRef
  pub policies : Set Bytes

unfoldable pub no_anchors : ProtocolAnchors → Bool
no_anchors a = is_empty a.addresses && is_empty a.utxo_refs && is_empty a.policies

-- one round of a loop in `hits`
abbrev pub count_hit : Bool → Bool → AnchorHits → AnchorHits
count_hit present gating h =
    if present
    then record { gating = if gating then suc h.gating else h.gating; total = suc h.total }
    else h

module _ (summary : PayloadSummary) where
  abbrev pub address_gating : Bytes → Bool
  address_gating a =
      contains summary.input_addresses a || contains summary.output_addresses_with_datum a

  abbrev pub address_present : Bytes → Bool
  address_present a = address_gating a || contains summary.output_addresses a

  abbrev pub utxo_ref_in_use : UtxoRef → Bool
  utxo_ref_in_use r = contains summary.input_refs r || contains summary.reference_refs r

  abbrev pub policy_gating : Bytes → Bool
  policy_gating p = contains summary.mint_policies p || contains summary.burn_policies p

  abbrev pub policy_present : Bytes → Bool
  policy_present p = policy_gating p || contains summary.value_policies p

  address_hits : List Bytes → AnchorHits → AnchorHits
  address_hits [] h = h
  address_hits (a ∷ as') h = address_hits as' (count_hit (address_present a) (address_gating a) h)

  utxo_ref_hits : List UtxoRef → AnchorHits → AnchorHits
  utxo_ref_hits [] h = h
  utxo_ref_hits (r ∷ rs) h = utxo_ref_hits rs (count_hit (utxo_ref_in_use r) true h)

  policy_hits : List Bytes → AnchorHits → AnchorHits
  policy_hits [] h = h
  policy_hits (p ∷ ps) h = policy_hits ps (count_hit (policy_present p) (policy_gating p) h)

  unfoldable pub hits : ProtocolAnchors → AnchorHits
  unfolding address_hits utxo_ref_hits policy_hits
  hits anchors = policy_hits anchors.policies (
      utxo_ref_hits anchors.utxo_refs
        (address_hits anchors.addresses (record { gating = 0; total = 0 })))

-- `s.split_once('#')`
split_hash : Text → Option (Text × Text)
split_hash [] = none
split_hash (c ∷ s) =
    let rest = split_hash s in
    if nat_eqb c b'#'
    then some ([], s)
    else elim rest [ none ↦ none | some (a, b) ↦ some (c ∷ a, b) ]

abbrev pub is_digit : ℕ → Bool
is_digit c = leb b'0' c && leb c b'9'

-- `str::parse::<u32>` on digits: an error where the value passes `u32::MAX`
parse_digits : ℕ → Text → Option ℕ
parse_digits n [] = some n
parse_digits n (c ∷ s) =
    let n' = n * 10 + (c - b'0') in
    let rest = parse_digits n' s in if leb n' u32_max then rest else none

module _ (lib : Library) where
  -- what follows the split
  read_ref : Text → Text → Option UtxoRef
  unfolding parse_digits
  read_ref txid_hex index_str =
      if not (nat_eqb (length txid_hex) 64)
      then none
      else if is_empty index_str || not (all is_digit index_str)
      then none
      else elim (lib.hex_decode txid_hex) [
        | none ↦ none
        | some txid ↦ elim (parse_digits 0 index_str) [
          | none ↦ none
          | some index ↦ some (txid, index)
        ]
      ]

  unfoldable pub parse_utxo_ref : Text → Option UtxoRef
  unfolding split_hash read_ref
  parse_utxo_ref s = elim (split_hash s) [
    | none ↦ none
    | some (txid_hex, index_str) ↦ read_ref txid_hex index_str
  ]

  unfoldable pub parse_policy : Text → Option Bytes
  parse_policy s = if nat_eqb (length s) 56 then lib.hex_decode s else none

  add_addresses : List Text → Set Bytes → Result Error (Set Bytes)
  add_addresses [] found = ok found
  add_addresses (address ∷ parties) found = do
    b ← decode_bech32_address lib address
    add_addresses parties (insert b found)

  add_value : Json → ProtocolAnchors → ProtocolAnchors
  add_value (text_value s) anchors = elim (parse_utxo_ref s) [
    | some r ↦ record anchors { utxo_refs = insert r anchors.utxo_refs }
    | none ↦ elim (parse_policy s) [
      | some p ↦ record anchors { policies = insert p anchors.policies }
      | none ↦ anchors
    ]
  ]
  add_value _ anchors = anchors

  add_values : List Json → ProtocolAnchors → ProtocolAnchors
  add_values [] anchors = anchors
  add_values (v ∷ vs) anchors = add_values vs (add_value v anchors)

  add_environment : Json → ProtocolAnchors → ProtocolAnchors
  add_environment (object env) anchors = add_values (Map.values (entries env)) anchors
  add_environment _ anchors = anchors

  unfoldable pub from_profile : Profile → Result Error ProtocolAnchors
  unfolding add_addresses add_value add_values add_environment
  from_profile profile = do
    addresses ← add_addresses (Map.values profile.parties) []
    ok (
        add_environment profile.environment
          (record { addresses = addresses; utxo_refs = []; policies = [] }))
