-- ===== src/Tracker/Specialization/Prepared.antt =====
-- bin/tracker/src/specialization.rs against crates/tx3-lift: what is cached is what the library
-- functions compute for the pair.
use tx3_lift.Prelude.{
  some, ◌∙◌, ◌≡◌, refl, ap, inl, inr, false, List, [], ◌∷◌, All, Text, Result, ok, err, ◌>>=◌,
  >>=-ok, ok_or, map_err, ok_inj, is_empty, Bool-cases, arith,
}
use tx3_lift.Prelude.Order.{nat_ord, list_ord, ◌==◌, ==_iff}
use mathlib.Core.Path.{subst}
use tx3_lift.Collections.Map
use tx3_lift.Collections.Map.{Map}
use tx3_lift.Lift.Tir.{Tx, TiiFile, ArgMap, Profile}
use tx3_lift.Lift.Error.{Error, specialize_error}
use tx3_lift.Lift.Library.{Library}
use tx3_lift.Lift.Specialize.{lookup_tx, lookup_profile, decode_tir, args_from_profile, specialize}
use tx3_lift.Lift.Fingerprint.{Fingerprint}
use tx3_lift.Lift.Fingerprint.Extract.{extract, fingerprint_for}
use tx3_lift.Lift.Anchors.{from_profile, no_anchors}
use tx3_lift.Tracker.Error.{config_error, io_error, json_error, lift}
use tx3_lift.Tracker.Specialization.{
  SourceConfig, SpecializedTii, Files, specialize_txs, specialize_one, specialize_all,
}

lift-ok : {B : Type 0} (r : Result Error B) (b : B) → map_err lift r ≡ ok b → r ≡ ok b
lift-ok (ok a) b h = ap ok (ok_inj h)
lift-ok (err e) b h = cc

module _ (lib : Library) where
  -- the cached transaction and fingerprint are those of `specialize` and `fingerprint_for`
  abbrev pub IsCached : TiiFile → Text → Text × (Tx × Fingerprint) → Type 0
  IsCached tii profile_name (tx_name, (tir, fp)) =
      (specialize lib tii tx_name profile_name [] ≡ ok tir)
      × (fingerprint_for lib tii tx_name profile_name ≡ ok fp)

  -- the transaction has its entry
  abbrev pub IsKept : Map Text (Tx × Fingerprint) → Text → Type 0
  IsKept txs tx_name = (tir : Tx) × (fp : Fingerprint) × (Map.get txs tx_name ≡ some (tir, fp))

  -- anchors, and an entry for each transaction of the TII file, each as it is to be
  abbrev pub IsPrepared : SpecializedTii → Type 0
  IsPrepared s =
      (no_anchors s.anchors ≡ false)
      × (is_empty s.txs ≡ false)
      × All (IsKept s.txs) (Map.keys s.tii.transactions)
      × All (IsCached s.tii s.profile_name) s.txs

  insert-IsKept :
      (t u : Text) (e : Tx × Fingerprint) (txs : Map Text (Tx × Fingerprint))
      → IsKept txs u
      → IsKept (Map.insert t e txs) u
  insert-IsKept t u e txs (tir, fp, g) = elim (Bool-cases (t == u)) [
    | inl y ↦ (e.0, e.1, Map.get-insert t u e txs ∙ rw y refl)
    | inr n ↦ (tir, fp, Map.get-insert t u e txs ∙ rw n g)
  ]

  -- entries that are there stay, and every name that is visited gets one
  specialize_txs-IsKept :
      (tii : TiiFile) (profile_name : Text) (args : ArgMap) (tx_names : List Text)
      (txs out : Map Text (Tx × Fingerprint))
      → specialize_txs lib tii profile_name args tx_names txs ≡ ok out
      → ((u : Text) → IsKept txs u → IsKept out u) × All (IsKept out) tx_names
  unfolding specialize_txs
  specialize_txs-IsKept tii profile_name args [] txs out e =
      (λ u k. subst (λ m. IsKept m u) (ok_inj e) k, tt)
  specialize_txs-IsKept tii profile_name args (t ∷ ts) txs out e =
      let (tx_meta, a, e1) = >>=-ok (map_err lift (lookup_tx tii t)) _ out e in
      let (raw, b, e2) = >>=-ok (map_err lift (decode_tir lib tx_meta)) _ out e1 in
      let (tir, c, e3) =
        >>=-ok (map_err lift (ok_or (lib.apply_args raw args) specialize_error)) _ out e2 in
      let fp = extract lib tii t profile_name tir args in
      let (kept, all) =
        specialize_txs-IsKept tii profile_name args ts (Map.insert t (tir, fp) txs) out e3 in
      (
        λ u k. kept u (insert-IsKept t u (tir, fp) txs k),
        (kept t (tir, fp, Map.get-insert t t (tir, fp) txs ∙ rw ((==_iff t t).1 refl) refl), all),
      )

  module _ (tii : TiiFile) (profile_name : Text) (profile : Profile) (args : ArgMap)
      (found : lookup_profile tii profile_name ≡ ok profile)
      (built : args_from_profile lib profile [] ≡ ok args) where
    specialize_txs-IsCached :
        (tx_names : List Text) (txs out : Map Text (Tx × Fingerprint))
        → All (IsCached tii profile_name) txs
        → specialize_txs lib tii profile_name args tx_names txs ≡ ok out
        → All (IsCached tii profile_name) out
    unfolding specialize_txs specialize fingerprint_for
    specialize_txs-IsCached [] txs out h e = subst (All (IsCached tii profile_name)) (ok_inj e) h
    specialize_txs-IsCached (t ∷ ts) txs out h e =
        let (tx_meta, a, e1) = >>=-ok (map_err lift (lookup_tx tii t)) _ out e in
        let (raw, b, e2) = >>=-ok (map_err lift (decode_tir lib tx_meta)) _ out e1 in
        let (tir, c, e3) =
          >>=-ok (map_err lift (ok_or (lib.apply_args raw args) specialize_error)) _ out e2 in
        let a' = lift-ok (lookup_tx tii t) tx_meta a in
        let b' = lift-ok (decode_tir lib tx_meta) raw b in
        let c' = lift-ok (ok_or (lib.apply_args raw args) specialize_error) tir c in
        let fp = extract lib tii t profile_name tir args in
        let done : specialize lib tii t profile_name [] ≡ ok tir =
          rw (a', found, built, b', c', ◌>>=◌) refl in
        specialize_txs-IsCached ts (Map.insert t (tir, fp) txs) out
          (Map.All-insert (IsCached tii profile_name) t (tir, fp) txs
            (done, rw (found, built, a', b', c', ◌>>=◌) refl) h)
          e3

  specialize_one-IsCached :
      (files : Files) (src : SourceConfig) (s : SpecializedTii)
      → specialize_one lib files src ≡ ok s
      → (is_empty s.txs ≡ false)
        × All (IsKept s.txs) (Map.keys s.tii.transactions)
        × All (IsCached s.tii s.profile_name) s.txs
  unfolding specialize_one
  specialize_one-IsCached files src s h =
      let (raw, a, h1) = >>=-ok (ok_or (files.read_to_string src.tii_path) io_error) _ s h in
      let (tii, b, h2) = >>=-ok (ok_or (files.parse_tii raw) json_error) _ s h1 in
      let (profile, c, h3) = >>=-ok (map_err lift (lookup_profile tii src.profile)) _ s h2 in
      let (anchors, d, h4) = >>=-ok (map_err lift (from_profile lib profile)) _ s h3 in
      let (args, e, h5) = >>=-ok (map_err lift (args_from_profile lib profile [])) _ s h4 in
      let (txs, f, h6) =
        >>=-ok (specialize_txs lib tii src.profile args (Map.keys tii.transactions) []) _ s h5 in
      let cached =
        specialize_txs-IsCached tii src.profile profile args
          (lift-ok (lookup_profile tii src.profile) profile c)
          (lift-ok (args_from_profile lib profile []) args e) (Map.keys tii.transactions) [] txs tt
          f in
      let kept = specialize_txs-IsKept tii src.profile args (Map.keys tii.transactions) [] txs f in
      elim (Bool-cases (is_empty txs)) [
        | inl y ↦ let bad : err config_error ≡ ok s = rw y at h6 in absurd (ground arith)
        | inr n ↦
            subst
              (λ (z : SpecializedTii).
                (is_empty z.txs ≡ false)
                × All (IsKept z.txs) (Map.keys z.tii.transactions)
                × All (IsCached z.tii z.profile_name) z.txs)
              (ok_inj (rw n at h6)) (n, kept.1, cached)
      ]

  -- Where the sources are specialized, every one that is kept has an anchor and a transaction; each
  -- transaction of its TII file has an entry, and each entry holds the TIR of `specialize` and the
  -- fingerprint of `fingerprint_for`, without further arguments.
  pub specialize_all-IsPrepared :
      (files : Files) (sources : List SourceConfig) (specialized : List SpecializedTii)
      → specialize_all lib files sources ≡ ok specialized
      → All IsPrepared specialized
  unfolding specialize_all
  specialize_all-IsPrepared files [] specialized h = subst (All IsPrepared) (ok_inj h) tt
  specialize_all-IsPrepared files (src ∷ sources) specialized h =
      let (s, a, h1) = >>=-ok (specialize_one lib files src) _ specialized h in
      let (rest, b, h2) = >>=-ok (specialize_all lib files sources) _ specialized h1 in
      let prepared = specialize_all-IsPrepared files sources rest b in
      let (some_txs, kept, cached) = specialize_one-IsCached files src s a in
      elim (Bool-cases (no_anchors s.anchors)) [
        | inl y ↦ subst (All IsPrepared) (ok_inj (rw y at h2)) prepared
        | inr n ↦
            subst (All IsPrepared) (ok_inj (rw n at h2)) ((n, some_txs, kept, cached), prepared)
      ]
