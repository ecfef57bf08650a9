-- ===== src/Lift/Tir.antt =====
-- The types of `tx3_tir` and `tx3_sdk` that the code takes apart, with the constructors and fields
-- that it names: `classify` in crates/tx3-lift/src/expr.rs matches every constructor of `Expression`
-- and of `Param`. A payload that no line of the code reads (of a coercion, a compiler operation, a
-- UTxO set, an expected value's type) is left out.
use tx3_lift.Prelude.{ℕ, ℤ, Bool, Option, List, [], ◌∷◌, Bytes, Text}
use tx3_lift.Collections.Map.{Map}

-- `tx3_tir::model::core::UtxoRef`: `txid` and `index`
pub record TirUtxoRef : Type 0 where
  pub txid : Bytes
  pub index : ℕ

mutual
  pub data Expression : Type 0 where
    nothing : Expression
    bytes : Bytes → Expression
    number : ℤ → Expression
    bool : Bool → Expression
    string : Text → Expression
    address : Bytes → Expression
    hash : Bytes → Expression
    utxo_refs : List TirUtxoRef → Expression
    utxo_set : Expression
    list : Expressions → Expression
    map_of : Pairs → Expression
    tuple : Expressions → Expression
    struct : ℕ → Expressions → Expression
    assets : Assets → Expression
    eval_param : Param → Expression
    eval_built_in : Expression
    eval_compiler : Expression
    eval_coerce : Expression
    ad_hoc_directive : Expression

  pub data Expressions : Type 0 where
    nil : Expressions
    cons : Expression → Expressions → Expressions

  pub data Pairs : Type 0 where
    no_pairs : Pairs
    pair : Expression → Expression → Pairs → Pairs

  -- an asset has a policy, a name and an amount
  pub data Assets : Type 0 where
    no_assets : Assets
    asset : Expression → Expression → Expression → Assets → Assets

  pub data Param : Type 0 where
    set_to : Expression → Param
    expect_value : Text → Param
    expect_input : Text → InputQuery → Param
    expect_fees : Param

  -- `address`, `min_amount`, `many`
  pub data InputQuery : Type 0 where
    input_query : Expression → Expression → Bool → InputQuery

abbrev pub query_address : InputQuery → Expression
query_address (input_query a m many) = a

abbrev pub query_min_amount : InputQuery → Expression
query_min_amount (input_query a m many) = m

abbrev pub query_many : InputQuery → Bool
query_many (input_query a m many) = many

pub record Input : Type 0 where
  pub name : Text
  pub utxos : Expression

pub record Output : Type 0 where
  pub address : Expression
  pub amount : Expression
  pub optional : Bool

pub record Mint : Type 0 where
  pub amount : Expression

pub record Metadata : Type 0 where
  pub key : Expression

-- `collateral` is only counted, `validity` only tested.
pub record Tx : Type 0 where
  pub inputs : List Input
  pub outputs : List Output
  pub mints : List Mint
  pub burns : List Mint
  pub references : List Expression
  pub collateral : ℕ
  pub signers : Option (List Expression)
  pub metadata : List Metadata
  pub validity : Bool

-- `TirVersion`: the code knows `V1Beta0`, and tests for it.
pub data TirVersion : Type 0 where
  v1_beta0 : TirVersion
  other_version : Text → TirVersion

pub data TirEncoding : Type 0 where
  hex base64 : TirEncoding

-- `tii::spec::Transaction`: its `tir` envelope
pub record Transaction : Type 0 where
  pub version : Text
  pub encoding : TirEncoding
  pub content : Text

-- `serde_json::Value`; a number as what its `as_i64` returns
mutual
  pub data Json : Type 0 where
    null : Json
    boolean : Bool → Json
    numeric : Option ℤ → Json
    text_value : Text → Json
    array : Json
    object : Members → Json

  pub data Members : Type 0 where
    no_members : Members
    member : Text → Json → Members → Members

abbrev pub entries : Members → List (Text × Json)
entries no_members = []
entries (member k v ms) = (k, v) ∷ entries ms

-- The maps of a TII file are lists of entries in the order in which the library visits them.
pub record Profile : Type 0 where
  pub parties : Map Text Text
  pub environment : Json

pub record TiiFile : Type 0 where
  pub tii_version : Text
  pub protocol_name : Text
  pub transactions : Map Text Transaction
  pub profiles : Map Text Profile

-- `tx3_tir::reduce::ArgValue`, as far as the code builds it
pub data ArgValue : Type 0 where
  arg_bool : Bool → ArgValue
  arg_int : ℤ → ArgValue
  arg_bytes : Bytes → ArgValue
  arg_string : Text → ArgValue
  arg_address : Bytes → ArgValue

abbrev pub ArgMap : Type 0
ArgMap = Map Text ArgValue
