-- ===== src/Tracker/Predicate/Wanted.antt =====
-- bin/tracker/src/upstream/predicate.rs: which transactions a compiled filter lets through. How the
-- server tests a pattern on a transaction is a function, `shows`.
use tx3_lift.Prelude.{
  ◌≡◌, refl, sym, ap, ◌∙◌, inl, inr, Bool, true, false, ◌||◌, Option, none, some, List, [], ◌∷◌,
  ◌++◌, Bytes, Text, ok, err, ◌>>=◌, >>=-ok, ok_or, map_err, ok_inj, any, any-append, Result-cases,
  Option-cases, Bool-cases, to_option, arith,
}
use tx3_lift.Lift.Library.{Library}
use tx3_lift.Lift.Specialize.{decode_bech32_address}
use tx3_lift.Tracker.Error.{lift, hex_error}
use tx3_lift.Tracker.Predicate.{
  UpstreamFilter, TxPattern, has_address, moves_asset, mints_asset, TxPredicate, matches_pattern,
  any_of, no_filter, compile, alternatives, address_patterns, policy_pattern, combine_alternatives,
}

module _ (shows : TxPattern → Bool) where
  -- a predicate with alternatives needs one of them, and without a predicate everything is sent
  abbrev pub is_sent : Option TxPredicate → Bool
  is_sent none = true
  is_sent (some (matches_pattern p)) = shows p
  is_sent (some (any_of ps)) = any shows ps

  -- the pattern of a value that decodes
  abbrev pub shows_some : (Bytes → TxPattern) → Option Bytes → Bool
  shows_some pattern_of none = false
  shows_some pattern_of (some b) = shows (pattern_of b)

  -- a policy that is set
  abbrev pub shows_policy : Library → (Bytes → TxPattern) → Option Text → Bool
  shows_policy lib pattern_of none = false
  shows_policy lib pattern_of (some hex) = shows_some pattern_of (lib.hex_decode hex)

  abbrev pub shows_address : Library → Text → Bool
  shows_address lib address = shows_some has_address (to_option (decode_bech32_address lib address))

  is_sent-combine : (ps : List TxPattern) → is_sent (some (combine_alternatives ps)) ≡ any shows ps
  is_sent-combine [] = refl
  is_sent-combine (p ∷ []) = ground arith
  is_sent-combine (p ∷ q ∷ ps) = refl

  module _ (lib : Library) where
    -- one of the addresses, or the policy that is moved or minted
    abbrev pub shows_one : List Text → Option Text → Option Text → Bool
    shows_one addresses moved minted =
        any (shows_address lib) addresses
        || shows_policy lib moves_asset moved
        || shows_policy lib mints_asset minted

    -- what the addresses and policies of a filter ask for: anything, where there are none
    abbrev pub wants : List Text → Option Text → Option Text → Bool
    wants [] none none = true
    wants [] none (some minted) = shows_one [] none (some minted)
    wants [] (some moved) minted = shows_one [] (some moved) minted
    wants (a ∷ addresses) moved minted = shows_one (a ∷ addresses) moved minted

    abbrev pub is_wanted : UpstreamFilter → Bool
    is_wanted cfg = wants cfg.addresses cfg.moves_policy_id cfg.mints_policy_id

    wants-no_filter :
        (addresses : List Text) (moved minted : Option Text)
        → wants addresses moved minted ≡ (
            no_filter
              (record { addresses = addresses; moves_policy_id = moved; mints_policy_id = minted })
            || shows_one addresses moved minted)
    unfolding no_filter
    wants-no_filter [] none none = refl
    wants-no_filter [] none (some minted) = refl
    wants-no_filter [] (some moved) none = refl
    wants-no_filter [] (some moved) (some minted) = refl
    wants-no_filter (a ∷ addresses) none none = refl
    wants-no_filter (a ∷ addresses) none (some minted) = refl
    wants-no_filter (a ∷ addresses) (some moved) none = refl
    wants-no_filter (a ∷ addresses) (some moved) (some minted) = refl

    is_wanted-no_filter :
        (cfg : UpstreamFilter)
        → is_wanted cfg
          ≡ (no_filter cfg || shows_one cfg.addresses cfg.moves_policy_id cfg.mints_policy_id)
    is_wanted-no_filter cfg = wants-no_filter cfg.addresses cfg.moves_policy_id cfg.mints_policy_id

    any-address_patterns :
        (addresses : List Text) (ps : List TxPattern)
        → address_patterns lib addresses ≡ ok ps
        → any shows ps ≡ any (shows_address lib) addresses
    unfolding address_patterns
    any-address_patterns [] ps h = ap (any shows) (sym (ok_inj h))
    any-address_patterns (a ∷ addresses) ps h = elim (Result-cases (decode_bech32_address lib a)) [
      | inr (e, q) ↦ let bad : err (lift e) ≡ ok ps = rw (q, map_err, ◌>>=◌) at h in cc
      | inl (b, q) ↦
          let (rest, r, same) =
            >>=-ok (address_patterns lib addresses) (λ rest. ok (has_address b ∷ rest)) ps
              (rw (q, map_err) at h) in
          ap (any shows) (sym (ok_inj same))
          ∙ ap (λ b'. shows (has_address b) || b') (any-address_patterns addresses rest r)
          ∙ rw (q, to_option) refl
    ]

    any-policy_pattern :
        (f : Bytes → TxPattern) (o : Option Text) (ps : List TxPattern)
        → policy_pattern lib f o ≡ ok ps
        → any shows ps ≡ shows_policy lib f o
    unfolding policy_pattern
    any-policy_pattern f none ps h = ap (any shows) (sym (ok_inj h))
    any-policy_pattern f (some t) ps h = elim (Option-cases (lib.hex_decode t)) [
      | inl n ↦ let bad : err hex_error ≡ ok ps = rw (n, ok_or, ◌>>=◌) at h in cc
      | inr (b, q) ↦
          let same : ok (f b ∷ []) ≡ ok ps = rw (q, ok_or, ◌>>=◌) at h in
          ap (any shows) (sym (ok_inj same)) ∙ rw q (ground arith)
    ]

    any-alternatives :
        (cfg : UpstreamFilter) (ps : List TxPattern)
        → alternatives lib cfg ≡ ok ps
        → any shows ps ≡ (
            any (shows_address lib) cfg.addresses
            || shows_policy lib moves_asset cfg.moves_policy_id
            || shows_policy lib mints_asset cfg.mints_policy_id)
    unfolding alternatives
    any-alternatives cfg ps h =
        let (xs, a, h1) = >>=-ok (address_patterns lib cfg.addresses) _ ps h in
        let (ys, b, h2) = >>=-ok (policy_pattern lib moves_asset cfg.moves_policy_id) _ ps h1 in
        let (zs, c, h3) = >>=-ok (policy_pattern lib mints_asset cfg.mints_policy_id) _ ps h2 in
        let same : (xs ++ ys ++ zs) ≡ ps = ok_inj h3 in
        let p = any-address_patterns cfg.addresses xs a in
        let q = any-policy_pattern moves_asset cfg.moves_policy_id ys b in
        let r = any-policy_pattern mints_asset cfg.mints_policy_id zs c in
        ap (any shows) (sym same)
        ∙ ground (
          arith,
          any-append shows (xs ++ ys) zs,
          any-append shows xs ys,
          any-append shows xs (ys ++ zs),
          any-append shows ys zs,
          p,
          q,
          r,
        )

    -- Where compiling succeeds, and whatever the server's test of a pattern on a transaction is, the
    -- transaction is sent exactly if the filter has no address and neither policy, or the transaction
    -- shows one of its addresses or one of its two policies.
    pub compile-wanted :
        (cfg : UpstreamFilter) (out : Option TxPredicate)
        → compile lib cfg ≡ ok out
        → is_sent out ≡ is_wanted cfg
    unfolding compile
    compile-wanted cfg out h = elim (Bool-cases (no_filter cfg)) [
      | inl e ↦
          let same : none ≡ out = ok_inj (rw e at h) in
          ap is_sent (sym same) ∙ sym (is_wanted-no_filter cfg ∙ rw e refl)
      | inr e ↦ elim (Result-cases (alternatives lib cfg)) [
        | inr (x, q) ↦ let bad : err x ≡ ok out = rw (e, q, ◌>>=◌) at h in cc
        | inl (ps, q) ↦
            let same : some (combine_alternatives ps) ≡ out = ok_inj (rw (e, q, ◌>>=◌) at h) in
            ap is_sent (sym same)
            ∙ is_sent-combine ps
            ∙ any-alternatives cfg ps q
            ∙ sym (is_wanted-no_filter cfg ∙ rw e refl)
      ]
    ]
