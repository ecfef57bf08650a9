-- ===== src/Lift/Expr.antt =====
-- crates/tx3-lift/src/expr.rs: how constant an expression is, and the constants inside.
pub mod Constants
use tx3_lift.Prelude.{
  ℕ, ℤ, Bool, Option, none, some, List, [], ◌∷◌, ◌++◌, Bytes, is_empty, if◌then◌else◌,
}
use tx3_lift.Lift.Tir.{
  Expression, Expressions, Pairs, Assets, Param, InputQuery, TirUtxoRef, nothing, bytes, number,
  bool, string, address, hash, utxo_refs, utxo_set, list, map_of, tuple, struct, assets, eval_param,
  eval_built_in, eval_compiler, eval_coerce, ad_hoc_directive, nil, cons, no_pairs, pair, no_assets,
  asset, set_to, expect_value, expect_input, expect_fees,
}

pub data ExprKind : Type 0 where
  const param_driven computed : ExprKind

-- the body of the loop in `combine`
abbrev pub combine : ExprKind → ExprKind → ExprKind
combine const const = const
combine const param_driven = param_driven
combine param_driven const = param_driven
combine param_driven param_driven = param_driven
combine computed k = computed
combine acc computed = computed

-- the lists are folded from the left, as `combine` does over the iterator
unfoldable mutual
  pub classify : Expression → ExprKind
  classify nothing = const
  classify (bytes b) = const
  classify (number n) = const
  classify (bool b) = const
  classify (string s) = const
  classify (address a) = const
  classify (hash h) = const
  classify (utxo_refs r) = const
  classify utxo_set = const
  classify (list xs) = combine_all const xs
  classify (map_of ps) = combine_pairs const ps
  classify (tuple xs) = combine_all const xs
  classify (struct c xs) = combine_all const xs
  classify (assets as') = combine_assets const as'
  classify (eval_param p) = classify_param p
  classify eval_built_in = computed
  classify eval_compiler = computed
  classify eval_coerce = computed
  classify ad_hoc_directive = computed

  pub classify_param : Param → ExprKind
  classify_param (set_to e) = classify e
  classify_param (expect_value n) = param_driven
  classify_param (expect_input n q) = param_driven
  classify_param expect_fees = param_driven

  pub combine_all : ExprKind → Expressions → ExprKind
  combine_all acc nil = acc
  combine_all acc (cons x xs) = combine_all (combine acc (classify x)) xs

  pub combine_pairs : ExprKind → Pairs → ExprKind
  combine_pairs acc no_pairs = acc
  combine_pairs acc (pair k v ps) =
      combine_pairs (combine (combine acc (classify k)) (classify v)) ps

  pub combine_assets : ExprKind → Assets → ExprKind
  combine_assets acc no_assets = acc
  combine_assets acc (asset p n a as') =
      combine_assets (combine (combine (combine acc (classify p)) (classify n)) (classify a)) as'

unfoldable pub const_address : Expression → Option Bytes
const_address (address b) = some b
const_address (eval_param (set_to e)) = const_address e
const_address _ = none

unfoldable pub const_utxo_refs : Expression → Option (List TirUtxoRef)
const_utxo_refs (utxo_refs refs) = some refs
const_utxo_refs (eval_param (set_to e)) = const_utxo_refs e
const_utxo_refs _ = none

unfoldable pub const_number : Expression → Option ℤ
const_number (number n) = some n
const_number (eval_param (set_to e)) = const_number e
const_number _ = none

unfoldable pub const_bytes : Expression → Option Bytes
const_bytes (bytes b) = some b
const_bytes (hash b) = some b
const_bytes (eval_param (set_to e)) = const_bytes e
const_bytes _ = none

-- `if let Some(p) = const_bytes(policy) { if !p.is_empty() { out.push(p) } }`
abbrev push_policy : Option Bytes → List Bytes → List Bytes
push_policy none out = out
push_policy (some b) out = if is_empty b then out else out ++ b ∷ []

unfoldable mutual
  pub collect_const_policies : Expression → List Bytes → List Bytes
  collect_const_policies (assets as') out = collect_assets as' out
  collect_const_policies (list xs) out = collect_list xs out
  collect_const_policies (eval_param p) out = collect_param p out
  collect_const_policies _ out = out

  pub collect_assets : Assets → List Bytes → List Bytes
  collect_assets no_assets out = out
  collect_assets (asset p n a as') out = collect_assets as' (push_policy (const_bytes p) out)

  pub collect_list : Expressions → List Bytes → List Bytes
  collect_list nil out = out
  collect_list (cons x xs) out = collect_list xs (collect_const_policies x out)

  pub collect_param : Param → List Bytes → List Bytes
  collect_param (set_to e) out = collect_const_policies e out
  collect_param (expect_value n) out = out
  collect_param (expect_input n q) out = out
  collect_param expect_fees out = out

unfoldable pub const_policies_in : Expression → List Bytes
unfolding collect_const_policies const_bytes
const_policies_in e = collect_const_policies e []

-- crates/tx3-lift/src/fingerprint.rs and crates/tx3-lift-cardano/src/matching.rs have this function
-- twice, word for word.
unfoldable pub expect_input_query : Expression → Option InputQuery
expect_input_query (eval_param (expect_input n q)) = some q
expect_input_query (eval_param (set_to e)) = expect_input_query e
expect_input_query _ = none
