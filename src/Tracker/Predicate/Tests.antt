-- ===== src/Tracker/Predicate/Tests.antt =====
-- A filter with one address, and one with a minted policy only.
use tx3_lift.Prelude.{Bool, false, Bytes, ◌≡◌, refl, none, some, [], ◌∷◌, ok}
use tx3_lift.Lift.Library.{Library}
use tx3_lift.Lift.Specialize.{decode_bech32_address}
use tx3_lift.Tracker.Predicate.{
  UpstreamFilter, TxPattern, moves_asset, mints_asset, has_address, matches_pattern, no_filter,
  compile,
}
use tx3_lift.Tracker.Predicate.Wanted.{is_sent, is_wanted, compile-wanted}
use tx3_lift.Prelude.Order.{nat_ord, list_ord, ◌==◌}

abbrev lib : Library
lib = record {
  hex_decode = λ s. some s;
  bech32_decode = λ s. some s;
  parse_tir_version = λ s. none;
  from_bytes = λ b v. none;
  apply_args = λ t args. none;
  serialize_tx = λ t. [];
  serialize_args = λ args. [];
}

abbrev one_address : UpstreamFilter
one_address = record { addresses = (1 ∷ []) ∷ []; moves_policy_id = none; mints_policy_id = none }

compiled : compile lib one_address ≡ ok (some (matches_pattern (has_address (1 ∷ []))))
unfolding compile decode_bech32_address no_filter
compiled = refl

abbrev minted_only : UpstreamFilter
minted_only = record { addresses = []; moves_policy_id = none; mints_policy_id = some (7 ∷ []) }

compiled_minted : compile lib minted_only ≡ ok (some (matches_pattern (mints_asset (7 ∷ []))))
unfolding compile no_filter
compiled_minted = refl

-- a transaction that mints one policy, and shows nothing else
abbrev mints_one : Bytes → TxPattern → Bool
mints_one a (has_address b) = false
mints_one a (moves_asset b) = false
mints_one a (mints_asset b) = a == b

compile-wanted_example :
    is_sent (mints_one (8 ∷ [])) (some (matches_pattern (mints_asset (7 ∷ []))))
    ≡ is_wanted (mints_one (8 ∷ [])) lib minted_only
compile-wanted_example =
    compile-wanted (mints_one (8 ∷ [])) lib minted_only
      (some (matches_pattern (mints_asset (7 ∷ [])))) compiled_minted
