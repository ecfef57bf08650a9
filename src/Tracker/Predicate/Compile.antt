-- ===== src/Tracker/Predicate/Compile.antt =====
-- bin/tracker/src/upstream/predicate.rs: the alternatives of a compiled filter.
use tx3_lift.Prelude.{
  ℕ, ◌+◌, ◌≡◌, refl, sym, not, ap, ◌∙◌, inl, inr, Bool, Option, none, some, List, [], ◌∷◌, ◌++◌,
  Bytes, Text, ok, ◌>>=◌, map_err, ok_inj, some_inj, length, length-append, is_some, Result-cases,
  Option-cases, Bool-cases, if◌then◌else◌, arith,
}
use tx3_lift.Lift.Library.{Library}
use tx3_lift.Lift.Specialize.{decode_bech32_address}
use tx3_lift.Tracker.Error.{lift}
use tx3_lift.Tracker.Predicate.{
  UpstreamFilter, TxPattern, moves_asset, mints_asset, TxPredicate, matches_pattern, any_of,
  no_filter, compile, alternatives, address_patterns, policy_pattern, combine_alternatives,
}

-- the patterns of a predicate, of which one has to match
abbrev pub patterns_of : TxPredicate → List TxPattern
patterns_of (matches_pattern p) = p ∷ []
patterns_of (any_of ps) = ps

patterns_of-combine : (ps : List TxPattern) → patterns_of (combine_alternatives ps) ≡ ps
patterns_of-combine [] = refl
patterns_of-combine (p ∷ []) = refl
patterns_of-combine (p ∷ q ∷ ps) = refl

abbrev pub one_if : Bool → ℕ
one_if b = if b then 1 else 0

module _ (lib : Library) where
  length-address_patterns :
      (as' : List Text) (ps : List TxPattern)
      → address_patterns lib as' ≡ ok ps
      → length ps ≡ length as'
  unfolding address_patterns
  length-address_patterns [] ps h = rw (sym (ok_inj h)) refl
  length-address_patterns (a ∷ as') ps h =
      elim (Result-cases (map_err lift (decode_bech32_address lib a))) [
        | inr (e, q) ↦ absurd (cc)
        | inl (b, q) ↦ elim (Result-cases (address_patterns lib as')) [
          | inr (e, r) ↦ absurd (ground arith)
          | inl (rest, r) ↦ ground (arith, length-address_patterns as' rest r)
        ]
      ]

  length-policy_pattern :
      (f : Bytes → TxPattern) (o : Option Text) (ps : List TxPattern)
      → policy_pattern lib f o ≡ ok ps
      → length ps ≡ one_if (is_some o)
  unfolding policy_pattern
  length-policy_pattern f none ps h = rw (sym (ok_inj h)) refl
  length-policy_pattern f (some t) ps h = elim (Option-cases (lib.hex_decode t)) [
    | inl n ↦ absurd (ground arith)
    | inr (b, q) ↦ ground arith
  ]

  length-alternatives :
      (cfg : UpstreamFilter) (ps : List TxPattern)
      → alternatives lib cfg ≡ ok ps
      → length ps
        ≡ length cfg.addresses
          + one_if (is_some cfg.moves_policy_id)
          + one_if (is_some cfg.mints_policy_id)
  unfolding alternatives
  length-alternatives cfg ps h = elim (Result-cases (address_patterns lib cfg.addresses)) [
    | inr (e, q) ↦ absurd (ground arith)
    | inl (xs, q) ↦ elim (Result-cases (policy_pattern lib moves_asset cfg.moves_policy_id)) [
      | inr (e, r) ↦ absurd (ground arith)
      | inl (ys, r) ↦ elim (Result-cases (policy_pattern lib mints_asset cfg.mints_policy_id)) [
        | inr (e, t) ↦ absurd (ground arith)
        | inl (zs, t) ↦
            let same : (xs ++ ys ++ zs) ≡ ps = ground arith in
            rw (sym same) (
              omega (
                arith,
                length-append (xs ++ ys) zs,
                length-append xs ys,
                length-append xs (ys ++ zs),
                length-append ys zs,
                length-address_patterns cfg.addresses xs q,
                length-policy_pattern moves_asset cfg.moves_policy_id ys r,
                length-policy_pattern mints_asset cfg.mints_policy_id zs t,
              ))
      ]
    ]
  ]

  -- Where compiling succeeds, the result is no predicate exactly if the filter is empty, and a
  -- predicate has one pattern for each address and for each of the two policies that is set.
  pub length-compile :
      (cfg : UpstreamFilter) (out : Option TxPredicate)
      → compile lib cfg ≡ ok out
      → (is_some out ≡ not (no_filter cfg))
        × ((p : TxPredicate)
            → out ≡ some p
            → length (patterns_of p)
              ≡ length cfg.addresses
                + one_if (is_some cfg.moves_policy_id)
                + one_if (is_some cfg.mints_policy_id))
  unfolding compile
  length-compile cfg out h = elim (Bool-cases (no_filter cfg)) [
    | inl e ↦ let same : none ≡ out = ok_inj (rw e at h) in rw (sym same, e) (refl, λ p q. cc)
    | inr e ↦ elim (Result-cases (alternatives lib cfg)) [
      | inr (x, q) ↦ absurd (ground arith)
      | inl (ps, q) ↦
          let same : some (combine_alternatives ps) ≡ out = ok_inj (rw (e, q, ◌>>=◌) at h) in
          rw (sym same, e)
            (
              refl,
              λ p r.
                  rw (sym (some_inj r))
                    (ap length (patterns_of-combine ps) ∙ length-alternatives cfg ps q),
            )
    ]
  ]
