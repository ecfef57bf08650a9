-- ===== src/Cardano/Datum.antt =====
-- crates/tx3-lift-cardano/src/datum.rs: a decoded Plutus datum as an expression of the TIR.
pub mod Constant
use tx3_lift.Prelude.{ℕ, ℤ, pos, negsuc, Bool, Option, some, none, Bytes, [], leb, if◌then◌else◌}
use tx3_lift.Lift.Tir.{
  Expression, Expressions, Pairs, bytes, number, list, map_of, struct, nil, cons, no_pairs, pair,
}
use tx3_lift.Cardano.Ledger.{
  BigInt, int, big_uint, big_nint, PlutusData, bounded_bytes, big_int, constr, array, map_data,
  MaybeIndefArray, definite, indefinite, DataItems, no_items, item, DataPairs, no_data_pairs,
  data_pair,
}

-- `i128::try_from(n).is_ok()`
abbrev pub fits_i128 : ℤ → Bool
fits_i128 (pos n) = leb n 170141183460469231731687303715884105727
fits_i128 (negsuc n) = leb n 170141183460469231731687303715884105727

unfoldable pub big_int_to_expr : BigInt → Expression
big_int_to_expr (int n) = if fits_i128 n then number n else bytes []
big_int_to_expr (big_uint b) = bytes b
big_int_to_expr (big_nint b) = bytes b

-- `c.any_constructor.unwrap_or(c.tag)`
abbrev pub constructor_of : Option ℕ → ℕ → ℕ
constructor_of none tag = tag
constructor_of (some c) tag = c

unfoldable mutual
  unfolding big_int_to_expr

  pub plutus_data_to_expression : PlutusData → Expression
  plutus_data_to_expression (bounded_bytes b) = bytes b
  plutus_data_to_expression (big_int b) = big_int_to_expr b
  plutus_data_to_expression (constr tag any_constructor fields) =
      struct (constructor_of any_constructor tag) (array_to_expressions fields)
  plutus_data_to_expression (array items) = list (array_to_expressions items)
  plutus_data_to_expression (map_data pairs) = map_of (pairs_to_expressions pairs)

  -- both encodings of an array give the same list
  pub array_to_expressions : MaybeIndefArray → Expressions
  array_to_expressions (definite items) = items_to_expressions items
  array_to_expressions (indefinite items) = items_to_expressions items

  pub items_to_expressions : DataItems → Expressions
  items_to_expressions no_items = nil
  items_to_expressions (item d items) =
      cons (plutus_data_to_expression d) (items_to_expressions items)

  pub pairs_to_expressions : DataPairs → Pairs
  pairs_to_expressions no_data_pairs = no_pairs
  pairs_to_expressions (data_pair k v pairs) =
      pair (plutus_data_to_expression k) (plutus_data_to_expression v) (pairs_to_expressions pairs)
