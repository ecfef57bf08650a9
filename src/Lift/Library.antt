-- ===== src/Lift/Library.antt =====
-- The functions of other packages that the core calls: `hex::decode`, the bech32 decoder,
-- `TirVersion::try_from`, `tx3_tir::encoding::from_bytes`, `tx3_tir::reduce::apply_args` and
-- `serde_json::to_vec`. `none` is their error.
use tx3_lift.Prelude.{◌*◌, ◌≡◌, Option, some, Bytes, Text, length}
use tx3_lift.Lift.Tir.{Tx, TirVersion, ArgMap}

pub record Library : Type 0 where
  pub hex_decode : Text → Option Bytes
  pub bech32_decode : Text → Option Bytes
  pub parse_tir_version : Text → Option TirVersion
  pub from_bytes : Bytes → TirVersion → Option Tx
  pub apply_args : Tx → ArgMap → Option Tx
  pub serialize_tx : Tx → Bytes
  pub serialize_args : ArgMap → Bytes

-- `hex::decode` reads two characters a byte.
pub record HexHalves (lib : Library) : Type 0 where
  pub halves : (s : Text) (b : Bytes) → lib.hex_decode s ≡ some b → length s ≡ 2 * length b
