-- ===== src/Tracker/Specialization.antt =====
-- bin/tracker/src/specialization.rs, and `SourceConfig` of config.rs: the TII of each source, with its
-- anchors and with every transaction specialized and fingerprinted, before the stream starts.
pub mod Prepared
use tx3_lift.Prelude.{
  ℕ, Bool, true, false, Option, none, some, List, [], ◌∷◌, Text, Result, ok, err, ◌>>=◌, ok_or,
  map_err, is_empty, if◌then◌else◌,
}
use tx3_lift.Prelude.Order.{nat_ord, list_ord}
use tx3_lift.Collections.Map
use tx3_lift.Collections.Map.{Map}
use tx3_lift.Lift.Tir.{Tx, TiiFile, ArgMap}
use tx3_lift.Lift.Error.{specialize_error}
use tx3_lift.Lift.Library.{Library}
use tx3_lift.Lift.Specialize.{lookup_tx, lookup_profile, decode_tir, args_from_profile}
use tx3_lift.Lift.Fingerprint.{Fingerprint}
use tx3_lift.Lift.Fingerprint.Extract.{extract}
use tx3_lift.Lift.Anchors.{ProtocolAnchors, from_profile, no_anchors}
use tx3_lift.Tracker.Error.{TrackerError, config_error, io_error, json_error, lift}

-- `SourceConfig`
pub record SourceConfig : Type 0 where
  pub name : Text
  pub tii_path : Text
  pub profile : Text

pub record SpecializedTii : Type 0 where
  pub name : Text
  pub tii : TiiFile
  pub profile_name : Text
  pub anchors : ProtocolAnchors
  pub txs : Map Text (Tx × Fingerprint)

-- what `std::fs::read_to_string` and `serde_json::from_str` give
pub record Files : Type 0 where
  pub read_to_string : Text → Option Text
  pub parse_tii : Text → Option TiiFile

module _ (lib : Library) where
  -- the loop over the transactions
  specialize_txs :
      TiiFile
      → Text
      → ArgMap
      → List Text
      → Map Text (Tx × Fingerprint)
      → Result TrackerError (Map Text (Tx × Fingerprint))
  specialize_txs tii profile_name args [] txs = ok txs
  specialize_txs tii profile_name args (tx_name ∷ names) txs = do
    tx_meta ← map_err lift (lookup_tx tii tx_name)
    raw_tir ← map_err lift (decode_tir lib tx_meta)
    specialized ← map_err lift (ok_or (lib.apply_args raw_tir args) specialize_error)
    let fp = extract lib tii tx_name profile_name specialized args
    specialize_txs tii profile_name args names (Map.insert tx_name (specialized, fp) txs)

  unfoldable pub specialize_one : Files → SourceConfig → Result TrackerError SpecializedTii
  unfolding specialize_txs
  specialize_one files src = do
    raw ← ok_or (files.read_to_string src.tii_path) io_error
    tii ← ok_or (files.parse_tii raw) json_error
    profile ← map_err lift (lookup_profile tii src.profile)
    anchors ← map_err lift (from_profile lib profile)
    args ← map_err lift (args_from_profile lib profile [])
    txs ← specialize_txs tii src.profile args (Map.keys tii.transactions) []
    let specialized : SpecializedTii = record {
      name = src.name;
      tii = tii;
      profile_name = src.profile;
      anchors = anchors;
      txs = txs;
    }
    if is_empty txs then err config_error else ok specialized

  -- a source without anchors is left out
  unfoldable pub specialize_all :
      Files → List SourceConfig → Result TrackerError (List SpecializedTii)
  specialize_all files [] = ok []
  specialize_all files (src ∷ sources) = do
    specialized ← specialize_one files src
    rest ← specialize_all files sources
    ok (if no_anchors specialized.anchors then rest else specialized ∷ rest)
