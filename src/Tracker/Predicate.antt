-- ===== src/Tracker/Predicate.antt =====
-- bin/tracker/src/upstream/predicate.rs, and `UpstreamFilter` of bin/tracker/src/config.rs: the filter
-- of the configuration as a predicate for the server.
pub mod Compile
pub mod Wanted
mod Tests
use tx3_lift.Prelude.{
  ℕ, Bool, true, false, ◌&&◌, not, Option, none, some, List, [], ◌∷◌, ◌++◌, Bytes, Text, Result, ok,
  err, ◌>>=◌, is_some, is_empty, map_err, ok_or, if◌then◌else◌,
}
use tx3_lift.Tracker.Error.{TrackerError, lift, hex_error}
use tx3_lift.Lift.Library.{Library}
use tx3_lift.Lift.Specialize.{decode_bech32_address}

pub record UpstreamFilter : Type 0 where
  pub addresses : List Text
  pub moves_policy_id : Option Text
  pub mints_policy_id : Option Text

-- `UpstreamFilter::is_empty`
unfoldable pub no_filter : UpstreamFilter → Bool
no_filter cfg =
    is_empty cfg.addresses && not (is_some cfg.moves_policy_id) && not (is_some cfg.mints_policy_id)

-- the one field of a `TxPattern` that is set
pub data TxPattern : Type 0 where
  has_address moves_asset mints_asset : Bytes → TxPattern

-- a `TxPredicate` with a pattern, or with alternatives
pub data TxPredicate : Type 0 where
  matches_pattern : TxPattern → TxPredicate
  any_of : List TxPattern → TxPredicate

-- one alternative stands alone
abbrev pub combine_alternatives : List TxPattern → TxPredicate
combine_alternatives (p ∷ []) = matches_pattern p
combine_alternatives ps = any_of ps

module _ (lib : Library) where
  -- the loop over the addresses
  address_patterns : List Text → Result TrackerError (List TxPattern)
  address_patterns [] = ok []
  address_patterns (address ∷ addresses) = do
    b ← map_err lift (decode_bech32_address lib address)
    rest ← address_patterns addresses
    ok (has_address b ∷ rest)

  -- `if let Some(policy_hex) = … { hex::decode(policy_hex)? … }`
  policy_pattern : (Bytes → TxPattern) → Option Text → Result TrackerError (List TxPattern)
  policy_pattern pattern_of none = ok []
  policy_pattern pattern_of (some policy_hex) = do
    b ← ok_or (lib.hex_decode policy_hex) hex_error
    ok (pattern_of b ∷ [])

  pub alternatives : UpstreamFilter → Result TrackerError (List TxPattern)
  unfolding address_patterns policy_pattern
  alternatives cfg = do
    addresses ← address_patterns cfg.addresses
    moves ← policy_pattern moves_asset cfg.moves_policy_id
    mints ← policy_pattern mints_asset cfg.mints_policy_id
    ok (addresses ++ moves ++ mints)

  unfoldable pub compile : UpstreamFilter → Result TrackerError (Option TxPredicate)
  unfolding alternatives
  compile cfg =
      let filtered = (do ps ← alternatives cfg; ok (some (combine_alternatives ps))) in
      if no_filter cfg then ok none else filtered
