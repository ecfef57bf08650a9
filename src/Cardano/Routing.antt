-- ===== src/Cardano/Routing.antt =====
-- crates/tx3-lift-cardano/src/lib.rs: the transactions and profiles of a TII are tried in turn, and
-- the first that matches is lifted. `CardanoMatcher` and `CardanoLifter` hold no state and pass their
-- calls on.
pub mod First
use tx3_lift.Prelude.{
  Option, none, some, List, [], ◌∷◌, Text, Result, ok, err, ◌>>=◌, map_err, Bool, true, false,
  if◌then◌else◌,
}
use tx3_lift.Collections.Map
use tx3_lift.Lift.Tir.{Tx, TiiFile, ArgMap}
use tx3_lift.Lift.Library.{Library}
use tx3_lift.Lift.Lifted.{Lifted}
use tx3_lift.Lift.Specialize.{specialize}
use tx3_lift.Lift.Fingerprint.{matches}
use tx3_lift.Lift.Fingerprint.Extract.{fingerprint_for}
use tx3_lift.Cardano.Ledger.{Pallas, CardanoPayload, CardanoLiftError, core}
use tx3_lift.Cardano.Summarize.{summarize}
use tx3_lift.Lift.Match.{Matcher, Lifter}
use tx3_lift.Cardano.Matching.{MatchAssignment, match_tx}
use tx3_lift.Cardano.Lifting.{AssetLibrary, lift}

-- `CardanoMatcher::match_tx`
unfoldable pub matcher_match_tx :
    Pallas → Tx → CardanoPayload → Result CardanoLiftError (Option MatchAssignment)
matcher_match_tx pallas specialized payload = match_tx pallas specialized payload [] []

-- `impl Matcher for CardanoMatcher`
abbrev pub cardano_matcher : Pallas → Matcher CardanoPayload CardanoLiftError
cardano_matcher pallas = record { summarize = summarize pallas; match_tx = matcher_match_tx pallas }

-- `impl Matcher` and `impl Lifter for CardanoLifter`, whose matcher is a `CardanoMatcher`
abbrev pub cardano_lifter :
    {A : Type 0} → Library → Pallas → AssetLibrary A → Lifter CardanoPayload CardanoLiftError A
cardano_lifter lib pallas assets = record {
  matcher = cardano_matcher pallas;
  lift = lift lib pallas assets;
}

module _ {A : Type 0} (lib : Library) (pallas : Pallas) (assets : AssetLibrary A) where
  lift_assigned :
      TiiFile
      → Text
      → Text
      → Tx
      → CardanoPayload
      → Option MatchAssignment
      → Result CardanoLiftError (Option (Lifted A))
  lift_assigned tii tx_name profile_name specialized payload none = ok none
  lift_assigned tii tx_name profile_name specialized payload (some assignment) = do
    lifted ← lift lib pallas assets tii tx_name profile_name specialized payload assignment
    ok (some lifted)

  unfoldable pub try_lift :
      TiiFile → Text → Text → CardanoPayload → ArgMap → Result CardanoLiftError (Option (Lifted A))
  unfolding lift_assigned
  try_lift tii tx_name profile_name payload extra_args = do
    specialized ← map_err core (specialize lib tii tx_name profile_name extra_args)
    summary ← summarize pallas payload
    fp ← map_err core (fingerprint_for lib tii tx_name profile_name)
    let structural = (do
      assignment ← match_tx pallas specialized payload profile_name tx_name
      lift_assigned tii tx_name profile_name specialized payload assignment)
    if matches fp summary then structural else ok none

  -- the early return of a loop
  abbrev pub or_next :
      Result CardanoLiftError (Option (Lifted A))
      → Result CardanoLiftError (Option (Lifted A))
      → Result CardanoLiftError (Option (Lifted A))
  or_next (ok (some lifted)) next = ok (some lifted)
  or_next (ok none) next = next
  or_next (err e) next = err e

  -- the inner and the outer loop of `route_and_lift`
  try_profiles :
      TiiFile → Text → List Text → CardanoPayload → Result CardanoLiftError (Option (Lifted A))
  try_profiles tii tx_name [] payload = ok none
  try_profiles tii tx_name (profile_name ∷ names) payload =
      or_next (try_lift tii tx_name profile_name payload [])
        (try_profiles tii tx_name names payload)

  try_all : TiiFile → List Text → CardanoPayload → Result CardanoLiftError (Option (Lifted A))
  try_all tii [] payload = ok none
  try_all tii (tx_name ∷ names) payload =
      or_next (try_profiles tii tx_name (Map.keys tii.profiles) payload) (try_all tii names payload)

  unfoldable pub route_and_lift :
      TiiFile → CardanoPayload → Result CardanoLiftError (Option (Lifted A))
  unfolding try_profiles try_all
  route_and_lift tii payload = try_all tii (Map.keys tii.transactions) payload

  -- the loop of `route_and_lift_with_profile`
  try_transactions :
      TiiFile → Text → List Text → CardanoPayload → Result CardanoLiftError (Option (Lifted A))
  try_transactions tii profile_name [] payload = ok none
  try_transactions tii profile_name (tx_name ∷ names) payload =
      or_next (try_lift tii tx_name profile_name payload [])
        (try_transactions tii profile_name names payload)

  unfoldable pub route_and_lift_with_profile :
      TiiFile → Text → CardanoPayload → Result CardanoLiftError (Option (Lifted A))
  unfolding try_transactions
  route_and_lift_with_profile tii profile_name payload =
      try_transactions tii profile_name (Map.keys tii.transactions) payload
