-- ===== src/Lift/Error.antt =====
-- crates/tx3-lift/src/error.rs. The messages of the errors that libraries report are left out.
use tx3_lift.Prelude.{Text}
use tx3_lift.Lift.Tir.{TirVersion}

pub data Error : Type 0 where
  unsupported_tir_version : TirVersion → Error
  unsupported_tii_version : Text → Error
  unknown_transaction : Text → Error
  unknown_profile : Text → Error
  tir_decode : Error
  specialize_error : Error
  invalid_encoding : Error
  invalid_address : Text → Error
  internal_error : Error
