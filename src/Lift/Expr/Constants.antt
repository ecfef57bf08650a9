-- ===== src/Lift/Expr/Constants.antt =====
-- What the extracted constants are: parts of an expression that is classified constant, or policies
-- that are not empty; and what `classify` means.
use tx3_lift.Prelude.{
  ℤ, ◌↔◌, ◌≡◌, refl, ◌≢◌, Option, none, some, List, [], ◌∷◌, Bytes, All, All-append, arith,
}
use tx3_lift.Lift.Tir.{
  Expression, Expressions, Pairs, Assets, Param, TirUtxoRef, bytes, number, address, hash,
  utxo_refs, list, map_of, tuple, struct, assets, eval_param, eval_built_in, eval_compiler,
  eval_coerce, ad_hoc_directive, nil, cons, no_pairs, pair, no_assets, asset, set_to, expect_value,
  expect_input, expect_fees,
}
use tx3_lift.Lift.Expr.{
  ExprKind, const, param_driven, computed, combine, classify, combine_all, const_address,
  const_utxo_refs, const_number, const_bytes, collect_const_policies, collect_assets, collect_list,
  collect_param, classify_param, combine_pairs, combine_assets, const_policies_in, push_policy,
}

pub const_address-const :
    (e : Expression) {b : Bytes} → const_address e ≡ some b → classify e ≡ const
unfolding const_address classify
const_address-const (address b) h = refl
const_address-const (eval_param (set_to e)) h = const_address-const e h
const_address-const _ h = cc

pub const_utxo_refs-const :
    (e : Expression) {r : List TirUtxoRef} → const_utxo_refs e ≡ some r → classify e ≡ const
unfolding const_utxo_refs classify
const_utxo_refs-const (utxo_refs b) h = refl
const_utxo_refs-const (eval_param (set_to e)) h = const_utxo_refs-const e h
const_utxo_refs-const _ h = cc

pub const_bytes-const : (e : Expression) {b : Bytes} → const_bytes e ≡ some b → classify e ≡ const
unfolding const_bytes classify
const_bytes-const (bytes b) h = refl
const_bytes-const (hash b) h = refl
const_bytes-const (eval_param (set_to e)) h = const_bytes-const e h
const_bytes-const _ h = cc

pub const_number-const : (e : Expression) {n : ℤ} → const_number e ≡ some n → classify e ≡ const
unfolding const_number classify
const_number-const (number b) h = refl
const_number-const (eval_param (set_to e)) h = const_number-const e h
const_number-const _ h = cc

push_policy-nonempty :
    (o : Option Bytes) (out : List Bytes)
    → All (λ p. p ≢ []) out
    → All (λ p. p ≢ []) (push_policy o out)
push_policy-nonempty none out h = h
push_policy-nonempty (some []) out h = h
push_policy-nonempty (some (x ∷ b)) out h = All-append (λ p. p ≢ []) out _ h (λ e. cc, tt)

mutual
  unfolding collect_const_policies

  collect-nonempty :
      (e : Expression) (out : List Bytes)
      → All (λ p. p ≢ []) out
      → All (λ p. p ≢ []) (collect_const_policies e out)
  collect-nonempty (assets as') out h = collect_assets-nonempty as' out h
  collect-nonempty (list xs) out h = collect_list-nonempty xs out h
  collect-nonempty (eval_param p) out h = collect_param-nonempty p out h
  collect-nonempty _ out h = h

  collect_assets-nonempty :
      (as' : Assets) (out : List Bytes)
      → All (λ p. p ≢ []) out
      → All (λ p. p ≢ []) (collect_assets as' out)
  collect_assets-nonempty no_assets out h = h
  collect_assets-nonempty (asset p n a as') out h =
      collect_assets-nonempty as' _ (push_policy-nonempty (const_bytes p) out h)

  collect_list-nonempty :
      (xs : Expressions) (out : List Bytes)
      → All (λ p. p ≢ []) out
      → All (λ p. p ≢ []) (collect_list xs out)
  collect_list-nonempty nil out h = h
  collect_list-nonempty (cons x xs) out h = collect_list-nonempty xs _ (collect-nonempty x out h)

  collect_param-nonempty :
      (p : Param) (out : List Bytes)
      → All (λ p. p ≢ []) out
      → All (λ p. p ≢ []) (collect_param p out)
  collect_param-nonempty (set_to e) out h = collect-nonempty e out h
  collect_param-nonempty (expect_value n) out h = h
  collect_param-nonempty (expect_input n q) out h = h
  collect_param-nonempty expect_fees out h = h

-- no collected policy is the empty one, which stands for the chain's own coin
pub const_policies_in-nonempty : (e : Expression) → All (λ p. p ≢ []) (const_policies_in e)
unfolding const_policies_in
const_policies_in-nonempty e = collect-nonempty e [] tt

-- An expression with no unresolved parameter and nothing to compute inside.
abbrev mutual
  pub IsResolved : Expression → Type 0
  IsResolved (list xs) = AllResolved xs
  IsResolved (map_of ps) = PairsResolved ps
  IsResolved (tuple xs) = AllResolved xs
  IsResolved (struct c xs) = AllResolved xs
  IsResolved (assets as') = AssetsResolved as'
  IsResolved (eval_param p) = ParamResolved p
  IsResolved eval_built_in = ⊥
  IsResolved eval_compiler = ⊥
  IsResolved eval_coerce = ⊥
  IsResolved ad_hoc_directive = ⊥
  IsResolved _ = Unit

  pub ParamResolved : Param → Type 0
  ParamResolved (set_to e) = IsResolved e
  ParamResolved _ = ⊥

  pub AllResolved : Expressions → Type 0
  AllResolved nil = Unit
  AllResolved (cons x xs) = IsResolved x × AllResolved xs

  pub PairsResolved : Pairs → Type 0
  PairsResolved no_pairs = Unit
  PairsResolved (pair k v ps) = IsResolved k × IsResolved v × PairsResolved ps

  pub AssetsResolved : Assets → Type 0
  AssetsResolved no_assets = Unit
  AssetsResolved (asset p n a as') = IsResolved p × IsResolved n × IsResolved a × AssetsResolved as'

combine_const : (a b : ExprKind) → (combine a b ≡ const) ↔ ((a ≡ const) × (b ≡ const))
combine_const const const = ground arith
combine_const const param_driven = ground arith
combine_const param_driven const = ground arith
combine_const param_driven param_driven = ground arith
combine_const computed k = ground arith
combine_const const computed = ground arith
combine_const param_driven computed = ground arith

mutual
  unfolding classify

  const-IsResolved : (e : Expression) → classify e ≡ const → IsResolved e
  const-IsResolved (list xs) h = (all_resolved const xs h).1
  const-IsResolved (map_of ps) h = (pairs_resolved const ps h).1
  const-IsResolved (tuple xs) h = (all_resolved const xs h).1
  const-IsResolved (struct c xs) h = (all_resolved const xs h).1
  const-IsResolved (assets as') h = (assets_resolved const as' h).1
  const-IsResolved (eval_param p) h = param_resolved p h
  const-IsResolved eval_built_in h = cc
  const-IsResolved eval_compiler h = cc
  const-IsResolved eval_coerce h = cc
  const-IsResolved ad_hoc_directive h = cc
  const-IsResolved _ h = tt

  param_resolved : (p : Param) → classify_param p ≡ const → ParamResolved p
  param_resolved (set_to e) h = const-IsResolved e h
  param_resolved (expect_value n) h = cc
  param_resolved (expect_input n q) h = cc
  param_resolved expect_fees h = cc

  all_resolved :
      (acc : ExprKind) (xs : Expressions)
      → combine_all acc xs ≡ const
      → (acc ≡ const) × AllResolved xs
  all_resolved acc nil h = (h, tt)
  all_resolved acc (cons x xs) h =
      let (a, r) = all_resolved (combine acc (classify x)) xs h in
      let (b, k) = (combine_const acc (classify x)).0 a in (b, (const-IsResolved x k, r))

  pairs_resolved :
      (acc : ExprKind) (ps : Pairs)
      → combine_pairs acc ps ≡ const
      → (acc ≡ const) × PairsResolved ps
  pairs_resolved acc no_pairs h = (h, tt)
  pairs_resolved acc (pair x y ps) h =
      let (a, r) = pairs_resolved (combine (combine acc (classify x)) (classify y)) ps h in
      let (b, k) = (combine_const (combine acc (classify x)) (classify y)).0 a in
      let (c, l) = (combine_const acc (classify x)).0 b in
      (c, (const-IsResolved x l, const-IsResolved y k, r))

  assets_resolved :
      (acc : ExprKind) (as' : Assets)
      → combine_assets acc as' ≡ const
      → (acc ≡ const) × AssetsResolved as'
  assets_resolved acc no_assets h = (h, tt)
  assets_resolved acc (asset x y z as') h =
      let (a, r) =
        assets_resolved (combine (combine (combine acc (classify x)) (classify y)) (classify z)) as'
          h in
      let (b, k) =
        (combine_const (combine (combine acc (classify x)) (classify y)) (classify z)).0 a in
      let (c, l) = (combine_const (combine acc (classify x)) (classify y)).0 b in
      let (d, m) = (combine_const acc (classify x)).0 c in
      (d, (const-IsResolved x m, const-IsResolved y l, const-IsResolved z k, r))

mutual
  unfolding classify

  resolved_const : (e : Expression) → IsResolved e → classify e ≡ const
  resolved_const (list xs) h = resolved_all xs h
  resolved_const (map_of ps) h = resolved_pairs ps h
  resolved_const (tuple xs) h = resolved_all xs h
  resolved_const (struct c xs) h = resolved_all xs h
  resolved_const (assets as') h = resolved_assets as' h
  resolved_const (eval_param p) h = resolved_param p h
  resolved_const eval_built_in h = absurd h
  resolved_const eval_compiler h = absurd h
  resolved_const eval_coerce h = absurd h
  resolved_const ad_hoc_directive h = absurd h
  resolved_const _ h = refl

  resolved_param : (p : Param) → ParamResolved p → classify_param p ≡ const
  resolved_param (set_to e) h = resolved_const e h
  resolved_param (expect_value n) h = absurd h
  resolved_param (expect_input n q) h = absurd h
  resolved_param expect_fees h = absurd h

  resolved_all : (xs : Expressions) → AllResolved xs → combine_all const xs ≡ const
  resolved_all nil h = refl
  resolved_all (cons x xs) h = rw (resolved_const x h.0) (resolved_all xs h.1)

  resolved_pairs : (ps : Pairs) → PairsResolved ps → combine_pairs const ps ≡ const
  resolved_pairs no_pairs h = refl
  resolved_pairs (pair x y ps) h =
      rw (resolved_const x h.0, resolved_const y h.1) (resolved_pairs ps h.2)

  resolved_assets : (as' : Assets) → AssetsResolved as' → combine_assets const as' ≡ const
  resolved_assets no_assets h = refl
  resolved_assets (asset x y z as') h =
      rw (resolved_const x h.0, resolved_const y h.1, resolved_const z h.2)
        (resolved_assets as' h.3)

-- An expression is classified constant exactly if nothing inside it waits for a parameter or is
-- computed: no expected value, input or fees, built-in, compiler operation, coercion or directive.
pub classify-const_iff : (e : Expression) → (classify e ≡ const) ↔ IsResolved e
classify-const_iff e = (const-IsResolved e, resolved_const e)

-- An address, a list of UTxO references, a number or a byte string that is extracted as a constant
-- comes from an expression that is classified constant.
pub extracted-const :
    (e : Expression)
    → ((b : Bytes) → const_address e ≡ some b → classify e ≡ const)
      × ((r : List TirUtxoRef) → const_utxo_refs e ≡ some r → classify e ≡ const)
      × ((n : ℤ) → const_number e ≡ some n → classify e ≡ const)
      × ((b : Bytes) → const_bytes e ≡ some b → classify e ≡ const)
extracted-const e = (
  λ b. const_address-const e,
  λ r. const_utxo_refs-const e,
  λ n. const_number-const e,
  λ b. const_bytes-const e,
)
