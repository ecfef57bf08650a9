-- ===== src/Tracker/Config.antt =====
-- bin/tracker/src/config.rs: what the tracker is told.
use tx3_lift.Prelude.{
  ℕ, Option, none, some, List, Text, Result, ok, err, ◌>>=◌, ok_or, is_empty, if◌then◌else◌,
}
use tx3_lift.Tracker.Error.{TrackerError, config_error, io_error, toml_error}
use tx3_lift.Tracker.Select.{MatchMode}
use tx3_lift.Tracker.Predicate.{UpstreamFilter}
use tx3_lift.Tracker.Specialization.{SourceConfig}

pub record MatchingConfig : Type 0 where
  pub mode : MatchMode

-- `Intersect`, whose one tag is `IntersectTag::Tip`
pub data Intersect : Type 0 where
  tip : Intersect
  point : ℕ → Text → Intersect

pub record UpstreamConfig : Type 0 where
  pub endpoint : Text
  pub api_key : Option Text
  pub intersect : Intersect
  pub filter : UpstreamFilter

pub record StorageConfig : Type 0 where
  pub database_path : Text

pub record Config : Type 0 where
  pub upstream : UpstreamConfig
  pub storage : StorageConfig
  pub sources : List SourceConfig
  pub matching : MatchingConfig

-- the file system, the TOML parser and the variable `DMTR_API_KEY`
pub record Environment : Type 0 where
  pub read_to_string : Text → Option Text
  pub from_str : Text → Option Config
  pub dmtr_api_key : Option Text

unfoldable pub resolve_api_key : Option Text → Option Text → Option Text
resolve_api_key (some key) env = some key
resolve_api_key none env = env

-- `.filter(|s| !s.is_empty())`
abbrev pub nonempty : Option Text → Option Text
nonempty none = none
nonempty (some s) = if is_empty s then none else some s

abbrev pub with_api_key : Option Text → Config → Config
with_api_key key cfg = record cfg { upstream = record cfg.upstream { api_key = key } }

unfoldable pub load : Environment → Text → Result TrackerError Config
load environment path = do
  contents ← ok_or (environment.read_to_string path) io_error
  cfg ← ok_or (environment.from_str contents) toml_error
  if is_empty cfg.sources
      then err config_error
      else ok (
          with_api_key
            (resolve_api_key (nonempty cfg.upstream.api_key) (nonempty environment.dmtr_api_key))
            cfg)
