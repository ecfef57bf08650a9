-- ===== src/Tracker/Error.antt =====
-- bin/tracker/src/error.rs, and the codes of `tonic::Status` that the tracker tells apart. The messages
-- are left out.
use tx3_lift.Prelude.{Bytes}
use tx3_lift.Lift.Error
use tx3_lift.Cardano.Ledger.{CardanoLiftError}

-- `tonic::Code`
pub data Code : Type 0 where
  success cancelled unknown invalid_argument deadline_exceeded not_found already_exists : Code
  permission_denied resource_exhausted failed_precondition aborted out_of_range : Code
  unimplemented internal unavailable data_loss unauthenticated : Code

pub data TrackerError : Type 0 where
  config_error io_error toml_error json_error hex_error : TrackerError
  lift : Error.Error → TrackerError
  lift_cardano : CardanoLiftError → TrackerError
  tonic_transport : TrackerError
  rpc : Code → TrackerError
  sqlite_error join_error : TrackerError
  decode_error : TrackerError
  tx_not_in_block : Bytes → TrackerError
  internal_error : TrackerError
