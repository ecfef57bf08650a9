-- ===== src/Lift/Specialize.antt =====
-- crates/tx3-lift/src/specialize.rs: a transaction of a TII file, with the values of a profile.
pub mod Arguments
use tx3_lift.Prelude.{
  ℕ, ℤ, Bool, true, false, Option, none, some, List, [], ◌∷◌, Result, ok, err, ◌>>=◌, ok_or, Bytes,
  Text, nat_eqb, ◌&&◌, if◌then◌else◌,
}
use mathlib.Core.Option
use tx3_lift.Prelude.Order.{nat_ord, list_ord}
use tx3_lift.Collections.Map
use tx3_lift.Collections.Map.{Map}
use tx3_lift.Lift.Tir.{
  Transaction, Profile, TiiFile, TirVersion, v1_beta0, other_version, TirEncoding, hex, base64, Tx,
  Json, null, boolean, numeric, text_value, array, object, entries, ArgValue, arg_bool, arg_int,
  arg_bytes, arg_string, arg_address, ArgMap,
}
use tx3_lift.Lift.Error.{
  Error, unknown_transaction, unknown_profile, unsupported_tir_version, tir_decode,
  invalid_encoding, invalid_address, specialize_error,
}
use tx3_lift.Lift.Library.{Library}

unfoldable pub lookup_tx : TiiFile → Text → Result Error Transaction
lookup_tx tii tx_name = ok_or (Map.get tii.transactions tx_name) (unknown_transaction tx_name)

unfoldable pub lookup_profile : TiiFile → Text → Result Error Profile
lookup_profile tii profile_name =
    ok_or (Map.get tii.profiles profile_name) (unknown_profile profile_name)

-- `s.strip_prefix("0x")`
abbrev pub strip_0x : Text → Option Text
strip_0x (a ∷ b ∷ rest) = if nat_eqb a b'0' && nat_eqb b b'x' then some rest else none
strip_0x _ = none

-- for k, v in entries { args.insert(k, v) }
abbrev pub insert_entries : List (Text × ArgValue) → ArgMap → ArgMap
insert_entries [] args = args
insert_entries ((k, v) ∷ es) args = insert_entries es (Map.insert k v args)

module _ (lib : Library) where
  require_v1 : TirVersion → Result Error TirVersion
  require_v1 v1_beta0 = ok v1_beta0
  require_v1 (other_version v) = err (unsupported_tir_version (other_version v))

  decode_content : TirEncoding → Text → Result Error Bytes
  decode_content hex content = ok_or (lib.hex_decode content) invalid_encoding
  decode_content base64 content = err invalid_encoding

  unfoldable pub decode_tir : Transaction → Result Error Tx
  unfolding require_v1 decode_content
  decode_tir tx = do
    parsed ← ok_or (lib.parse_tir_version tx.version) tir_decode
    version ← require_v1 parsed
    content ← decode_content tx.encoding tx.content
    ok_or (lib.from_bytes content version) tir_decode

  hex_or_string : Text → Option Text → ArgValue
  hex_or_string s none = arg_string s
  hex_or_string s (some stripped) = elim (lib.hex_decode stripped) [
    | some b ↦ arg_bytes b
    | none ↦ arg_string s
  ]

  unfoldable pub json_to_arg_value : Json → Option ArgValue
  unfolding hex_or_string
  json_to_arg_value (boolean b) = some (arg_bool b)
  json_to_arg_value (numeric n) = Option.map arg_int n
  json_to_arg_value (text_value s) = some (hex_or_string s (strip_0x s))
  json_to_arg_value _ = none

  unfoldable pub decode_bech32_address : Text → Result Error Bytes
  decode_bech32_address s = ok_or (lib.bech32_decode s) (invalid_address s)

  -- the loop over the environment
  insert_environment : List (Text × Json) → ArgMap → ArgMap
  insert_environment [] args = args
  insert_environment ((k, v) ∷ env) args =
      insert_environment env
        (elim (json_to_arg_value v) [ some a ↦ Map.insert k a args | none ↦ args ])

  pub environment_args : Json → ArgMap → ArgMap
  environment_args (object env) args = insert_environment (entries env) args
  environment_args _ args = args

  -- the loop over the parties
  insert_parties : List (Text × Text) → ArgMap → Result Error ArgMap
  insert_parties [] args = ok args
  insert_parties ((party, address) ∷ parties) args = do
    b ← decode_bech32_address address
    insert_parties parties (Map.insert party (arg_address b) args)

  unfoldable pub args_from_profile : Profile → ArgMap → Result Error ArgMap
  unfolding insert_environment environment_args insert_parties decode_bech32_address
      json_to_arg_value
  args_from_profile profile extra_args = do
    args ← insert_parties profile.parties (environment_args profile.environment [])
    ok (insert_entries extra_args args)

  unfoldable pub specialize : TiiFile → Text → Text → ArgMap → Result Error Tx
  specialize tii tx_name profile_name extra_args = do
    tx ← lookup_tx tii tx_name
    profile ← lookup_profile tii profile_name
    args ← args_from_profile profile extra_args
    tir ← decode_tir tx
    ok_or (lib.apply_args tir args) specialize_error
