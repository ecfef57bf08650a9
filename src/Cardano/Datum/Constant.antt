-- ===== src/Cardano/Datum/Constant.antt =====
-- crates/tx3-lift-cardano/src/datum.rs against crates/tx3-lift/src/expr.rs: a datum is constant.
use tx3_lift.Prelude.{◌≡◌, Bool-cases, inl, inr}
use tx3_lift.Lift.Expr.{classify, const}
use tx3_lift.Lift.Expr.Constants.{IsResolved, AllResolved, PairsResolved, classify-const_iff}
use tx3_lift.Cardano.Ledger.{
  BigInt, int, big_uint, big_nint, PlutusData, bounded_bytes, big_int, constr, array, map_data,
  MaybeIndefArray, definite, indefinite, DataItems, no_items, item, DataPairs, no_data_pairs,
  data_pair,
}
use tx3_lift.Cardano.Datum.{
  fits_i128, big_int_to_expr, plutus_data_to_expression, array_to_expressions, items_to_expressions,
  pairs_to_expressions,
}

big_int-IsResolved : (b : BigInt) → IsResolved (big_int_to_expr b)
unfolding big_int_to_expr
big_int-IsResolved (int n) = elim (Bool-cases (fits_i128 n)) [ inl e ↦ rw e tt | inr e ↦ rw e tt ]
big_int-IsResolved (big_uint b) = tt
big_int-IsResolved (big_nint b) = tt

mutual
  unfolding plutus_data_to_expression

  data-IsResolved : (d : PlutusData) → IsResolved (plutus_data_to_expression d)
  data-IsResolved (bounded_bytes b) = tt
  data-IsResolved (big_int b) = big_int-IsResolved b
  data-IsResolved (constr tag c fields) = array-AllResolved fields
  data-IsResolved (array items) = array-AllResolved items
  data-IsResolved (map_data pairs) = pairs-PairsResolved pairs

  array-AllResolved : (a : MaybeIndefArray) → AllResolved (array_to_expressions a)
  array-AllResolved (definite items) = items-AllResolved items
  array-AllResolved (indefinite items) = items-AllResolved items

  items-AllResolved : (xs : DataItems) → AllResolved (items_to_expressions xs)
  items-AllResolved no_items = tt
  items-AllResolved (item d xs) = (data-IsResolved d, items-AllResolved xs)

  pairs-PairsResolved : (ps : DataPairs) → PairsResolved (pairs_to_expressions ps)
  pairs-PairsResolved no_data_pairs = tt
  pairs-PairsResolved (data_pair k v ps) =
      (data-IsResolved k, data-IsResolved v, pairs-PairsResolved ps)

-- The expression that a datum is decoded to is classified constant, whatever the datum: it has no
-- parameter left and nothing to compute.
pub classify-plutus_data : (d : PlutusData) → classify (plutus_data_to_expression d) ≡ const
classify-plutus_data d = (classify-const_iff (plutus_data_to_expression d)).1 (data-IsResolved d)
