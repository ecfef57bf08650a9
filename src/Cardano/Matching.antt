-- ===== src/Cardano/Matching.antt =====
-- crates/tx3-lift-cardano/src/matching.rs: the greedy structural
-- match. The vectors of flags say which slots of the payload are consumed.
pub mod Fits
pub mod Claims
pub mod Assigned
pub mod Inputs
pub mod Spent
pub mod Fresh
pub mod Free
pub mod Necessary
pub use tx3_lift.Lift.Match.{MatchAssignment}
use mathlib.Core.Option
use tx3_lift.Prelude.{
  ℕ, zero, suc, ◌&&◌, ◌||◌, Bool, true, false, not, Option, none, some, List, [], ◌∷◌, ◌++◌, map,
  Bytes, Text, Result, ok, ◌>>=◌, any, is_empty, length, nat_eqb, as_u32, is_positive, is_negative,
  if◌then◌else◌,
}
use tx3_lift.Prelude.Order.{nat_ord, list_ord, ◌==◌}
use tx3_lift.Lift.Tir.{
  Tx, Input, Output, Mint, Expression, InputQuery, TirUtxoRef, query_address, query_many,
}
use tx3_lift.Lift.Expr.{const_address, const_utxo_refs, const_policies_in, expect_input_query}
use tx3_lift.Cardano.Ledger.{
  OutputRef, LedgerOutput, PolicyAssets, LedgerTx, Pallas, CardanoPayload, CardanoLiftError,
  ref_key, parsed, resolved_output,
}

-- the slots taken, and the flags after it
abbrev pub Taken : Type 0
Taken = List ℕ × List Bool

abbrev pub later : Taken → Taken
later (slots, flags) = (map suc slots, false ∷ flags)

abbrev pub skipped : Taken → Taken
skipped (slots, flags) = (map suc slots, true ∷ flags)

-- `for (i, x) in xs.iter().enumerate() { if consumed[i] { continue; } if test { push; consume; break } }`
abbrev pub claim {ℓ} : {A : Type ℓ} → (A → Bool) → List A → List Bool → Taken
claim p [] flags = ([], flags)
claim p (x ∷ xs) [] = ([], [])
claim p (x ∷ xs) (true ∷ flags) = skipped (claim p xs flags)
claim p (x ∷ xs) (false ∷ flags) =
    let rest = claim p xs flags in if p x then (0 ∷ [], true ∷ flags) else later rest

-- the same loop without the `break`
abbrev pub claim_all {ℓ} : {A : Type ℓ} → (A → Bool) → List A → List Bool → Taken
claim_all p [] flags = ([], flags)
claim_all p (x ∷ xs) [] = ([], [])
claim_all p (x ∷ xs) (true ∷ flags) = skipped (claim_all p xs flags)
claim_all p (x ∷ xs) (false ∷ flags) =
    let rest = claim_all p xs flags in
    if p x then (0 ∷ map suc rest.0, true ∷ rest.1) else later rest

abbrev pub unused {ℓ} : {A : Type ℓ} → List A → List Bool
unused [] = []
unused (x ∷ xs) = false ∷ unused xs

-- `oref.hash() == r.txid && oref.index() as u32 == r.index`
abbrev pub is_ref : TirUtxoRef → OutputRef → Bool
is_ref r oref = (oref.hash == r.txid) && nat_eqb (as_u32 oref.index) r.index

-- an address against a required one; an address that does not parse is no match
abbrev pub address_is : Option Bytes → Bytes → Bool
address_is none req = false
address_is (some a) req = a == req

abbrev pub output_fits : Option Bytes → LedgerOutput → Bool
output_fits none output = true
output_fits (some req) output = address_is output.address req

abbrev pub policy_fits : List Bytes → PolicyAssets → Bool
policy_fits policies p = is_empty policies || any (λ req. req == p.policy) policies

-- `assign_input`, for constant references: every one of them is needed
assign_refs : List TirUtxoRef → List OutputRef → List Bool → Option Taken
assign_refs [] inputs flags = some ([], flags)
assign_refs (r ∷ refs) inputs flags =
    let (found, flags') = claim (is_ref r) inputs flags in
    let rest = assign_refs refs inputs flags' in
    if is_empty found then none else Option.map (λ (t : Taken). (found ++ t.0, t.1)) rest

module _ (pallas : Pallas) (payload : CardanoPayload) where
  abbrev pub input_fits : Option Bytes → OutputRef → Bool
  input_fits none oref = true
  input_fits (some req) oref = elim (resolved_output pallas payload (ref_key oref)) [
    | none ↦ false
    | some output ↦ address_is output.address req
  ]

  assign_input_by_query : InputQuery → List OutputRef → List Bool → Taken
  assign_input_by_query query inputs flags =
      let req = const_address (query_address query) in
      if query_many query
      then claim_all (input_fits req) inputs flags
      else claim (input_fits req) inputs flags

  pub assign_input : Expression → List OutputRef → List Bool → Option Taken
  unfolding assign_refs assign_input_by_query
  assign_input utxos inputs flags = elim (const_utxo_refs utxos) [
    | some refs ↦ assign_refs refs inputs flags
    | none ↦ elim (expect_input_query utxos) [
      | some query ↦ some (assign_input_by_query query inputs flags)
      | none ↦ some ([], flags)
    ]
  ]

  pub assign_inputs : List Input → List OutputRef → List Bool → Option (List (List ℕ))
  assign_inputs [] inputs flags = some []
  assign_inputs (i ∷ is) inputs flags = elim (assign_input i.utxos inputs flags) [
    | none ↦ none
    | some (slots, flags') ↦ Option.map (◌∷◌ slots) (assign_inputs is inputs flags')
  ]

pub assign_outputs : List Output → List LedgerOutput → List Bool → Option (List (List ℕ))
assign_outputs [] outputs flags = some []
assign_outputs (o ∷ os) outputs flags =
    let (matched, flags') = claim (output_fits (const_address o.address)) outputs flags in
    let rest = Option.map (◌∷◌ matched) (assign_outputs os outputs flags') in
    if is_empty matched && not o.optional then none else rest

-- the loops over mints and over burns differ in the sign that they want
pub assign_mints :
    (PolicyAssets → Bool) → List Mint → List PolicyAssets → List Bool → Option (List (List ℕ))
assign_mints signed [] mints flags = some []
assign_mints signed (m ∷ ms) mints flags =
    let (matched, flags') =
      claim (λ p. policy_fits (const_policies_in m.amount) p && signed p) mints flags in
    let rest = Option.map (◌∷◌ matched) (assign_mints signed ms mints flags') in
    if is_empty matched then none else rest

abbrev pub any_positive : PolicyAssets → Bool
any_positive p = any (λ a. is_positive a.1) p.assets

abbrev pub any_negative : PolicyAssets → Bool
any_negative p = any (λ a. is_negative a.1) p.assets

-- references by constant value: one that is not found is passed over
reference_slots : List TirUtxoRef → List OutputRef → List Bool → Taken
reference_slots [] payload_refs flags = ([], flags)
reference_slots (r ∷ refs) payload_refs flags =
    let (found, flags') = claim (is_ref r) payload_refs flags in
    let (more, flags'') = reference_slots refs payload_refs flags' in (found ++ more, flags'')

assign_reference : Expression → List OutputRef → List Bool → Taken
unfolding reference_slots
assign_reference e payload_refs flags = elim (const_utxo_refs e) [
  | some refs ↦ reference_slots refs payload_refs flags
  | none ↦ claim (λ r. true) payload_refs flags
]

pub assign_references : List Expression → List OutputRef → List Bool → Option (List (List ℕ))
unfolding assign_reference
assign_references [] payload_refs flags = some []
assign_references (e ∷ es) payload_refs flags =
    let (matched, flags') = assign_reference e payload_refs flags in
    let rest = Option.map (◌∷◌ matched) (assign_references es payload_refs flags') in
    if is_empty matched then none else rest

abbrev pub empty_slots : ℕ → List (List ℕ)
empty_slots zero = []
empty_slots (suc n) = [] ∷ empty_slots n

infixl 4 ◌>>?◌
abbrev pub ◌>>?◌ : {A B : Type 0} → Option A → (A → Option B) → Option B
m >>? f = elim m [ none ↦ none | some a ↦ f a ]

-- the five loops, each of which may return `Ok(None)`
pub assign : Pallas → CardanoPayload → Tx → LedgerTx → Text → Text → Option MatchAssignment
unfolding assign_input assign_inputs assign_outputs assign_mints assign_references
assign pallas payload specialized tx profile_name tx_name =
    assign_inputs pallas payload specialized.inputs tx.inputs (unused tx.inputs) >>? λ input_map.
    assign_outputs specialized.outputs tx.outputs (unused tx.outputs) >>? λ output_map.
    assign_mints any_positive specialized.mints tx.mints (unused tx.mints) >>? λ mint_map.
    assign_mints any_negative specialized.burns tx.mints (unused tx.mints) >>? λ burn_map.
    assign_references specialized.references tx.reference_inputs (unused tx.reference_inputs)
    >>? λ reference_map. some (record {
      tx_name = tx_name;
      profile_name = profile_name;
      input_map = input_map;
      output_map = output_map;
      reference_map = reference_map;
      mint_map = mint_map;
      burn_map = burn_map;
      collateral_map = empty_slots specialized.collateral;
    })

unfoldable pub match_tx :
    Pallas → Tx → CardanoPayload → Text → Text → Result CardanoLiftError (Option MatchAssignment)
unfolding assign
match_tx pallas specialized payload profile_name tx_name = do
  tx ← parsed pallas payload
  ok (assign pallas payload specialized tx profile_name tx_name)
