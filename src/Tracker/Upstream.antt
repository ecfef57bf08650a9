-- ===== src/Tracker/Upstream.antt =====
-- bin/tracker/src/upstream/mod.rs: how the tracker reaches the server, and the header with its key.
pub mod Key
pub mod Failures
use tx3_lift.Prelude.{
  ℕ, Bool, Option, none, some, List, [], ◌∷◌, Bytes, Text, Result, ok, err, ◌>>=◌, ok_or,
  if◌then◌else◌, text,
}
use tx3_lift.Prelude.Order.{nat_ord, list_ord}
use tx3_lift.Collections.Map
use tx3_lift.Collections.Map.{Map}
use tx3_lift.Cardano.Party.{starts_with}
use tx3_lift.Lift.Library.{Library}
use tx3_lift.Tracker.Error.{TrackerError, config_error, hex_error, tonic_transport}
use tx3_lift.Tracker.Config.{UpstreamConfig, Intersect, tip, point}

-- the metadata of a request, by the name of the header
abbrev pub MetadataMap : Type 0
MetadataMap = Map Text Text

pub record ApiKeyInterceptor : Type 0 where
  pub api_key : Option Text

abbrev pub header_name : Text
header_name = text "dmtr-api-key"

-- `ApiKeyInterceptor::call`, which every request passes
unfoldable pub call : ApiKeyInterceptor → MetadataMap → MetadataMap
call interceptor metadata = elim interceptor.api_key [
  | none ↦ metadata
  | some value ↦ Map.insert header_name value metadata
]

pub record BlockRef : Type 0 where
  pub slot : ℕ
  pub hash : Bytes
  pub height : ℕ

unfoldable pub intersect_block_refs : Library → Intersect → Result TrackerError (List BlockRef)
intersect_block_refs lib tip = ok []
intersect_block_refs lib (point slot hash) = do
  decoded ← ok_or (lib.hex_decode hash) hex_error
  ok (record { slot = slot; hash = decoded; height = 0 } ∷ [])

-- what tonic and the network answer to one attempt to connect
pub record Transport : Type 0 where
  pub from_shared : Text → Bool
  pub tls_config : Bool
  pub reachable : Bool
  pub metadata_value : Text → Bool

abbrev pub check : Bool → TrackerError → Result TrackerError (Unit {0})
check b e = if b then ok tt else err e

-- `MetadataValue::try_from`, where there is a key; the value holds the bytes of the key
abbrev pub metadata_of : Transport → Option Text → Result TrackerError (Option Text)
metadata_of transport none = ok none
metadata_of transport (some key) =
    if transport.metadata_value key then ok (some key) else err config_error

abbrev pub is_https : Text → Bool
is_https endpoint = starts_with endpoint (text "https://")

unfoldable pub connect : Transport → UpstreamConfig → Result TrackerError ApiKeyInterceptor
connect transport cfg = do
  _ ← check (transport.from_shared cfg.endpoint) config_error
  _ ← (if is_https cfg.endpoint then check transport.tls_config tonic_transport else ok tt)
  _ ← check transport.reachable tonic_transport
  api_key ← metadata_of transport cfg.api_key
  ok (record { api_key = api_key })
