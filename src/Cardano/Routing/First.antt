-- ===== src/Cardano/Routing/First.antt =====
-- crates/tx3-lift-cardano/src/lib.rs: both routes return the first lift in the order of their pairs.
use mathlib.Core.List.{append_assoc}
use tx3_lift.Prelude.{
  ◌≡◌, refl, sym, ap, ◌∙◌, Option, none, some, List, [], ◌∷◌, ◌++◌, map, All, All-append, Text,
  Result, ok, err,
}
use tx3_lift.Collections.Map
use tx3_lift.Lift.Tir.{TiiFile}
use tx3_lift.Lift.Library.{Library}
use tx3_lift.Lift.Lifted.{Lifted}
use tx3_lift.Cardano.Ledger.{Pallas, CardanoPayload, CardanoLiftError}
use tx3_lift.Cardano.Lifting.{AssetLibrary}
use tx3_lift.Cardano.Routing.{
  try_lift, or_next, try_profiles, try_all, route_and_lift, try_transactions,
  route_and_lift_with_profile,
}

-- the pairs of a transaction and a profile, transaction by transaction
abbrev pub pairs : List Text → List Text → List (Text × Text)
pairs [] profiles = []
pairs (t ∷ txs) profiles = map (λ p. (t, p)) profiles ++ pairs txs profiles

module _ {P : Type 0} (ps qs before : List P) (p : P) (after : List P) where
  later : qs ≡ before ++ p ∷ after → (ps ++ qs) ≡ (ps ++ before) ++ p ∷ after
  later e = ap (λ z. ps ++ z) e ∙ sym (append_assoc ps before (p ∷ after))

  earlier : ps ≡ before ++ p ∷ after → (ps ++ qs) ≡ before ++ p ∷ (after ++ qs)
  earlier e = ap (λ z. z ++ qs) e ∙ append_assoc before (p ∷ after) qs

module _ {A : Type 0} (lib : Library) (pallas : Pallas) (assets : AssetLibrary A) (tii : TiiFile)
    (payload : CardanoPayload) where
  abbrev pub attempt : Text × Text → Result CardanoLiftError (Option (Lifted A))
  attempt (tx_name, profile_name) = try_lift lib pallas assets tii tx_name profile_name payload []

  -- what a search through the pairs returns: the first lift or error, with no match before it, or
  -- nothing where no pair matches
  abbrev pub FirstOf : List (Text × Text) → Result CardanoLiftError (Option (Lifted A)) → Type 0
  FirstOf ps (ok none) = All (λ p. attempt p ≡ ok none) ps
  FirstOf ps r =
      (before : List (Text × Text)) × (p : Text × Text) × (after : List (Text × Text)) × (ps
        ≡ before ++ p ∷ after)
      × All (λ q. attempt q ≡ ok none) before
      × (attempt p ≡ r)

  one :
      (p : Text × Text) (r : Result CardanoLiftError (Option (Lifted A)))
      → attempt p ≡ r
      → FirstOf (p ∷ []) r
  one p (ok none) e = (e, tt)
  one p (ok (some l)) e = ([], p, [], refl, tt, e)
  one p (err x) e = ([], p, [], refl, tt, e)

  FirstOf-append :
      (ps qs : List (Text × Text)) (r s : Result CardanoLiftError (Option (Lifted A)))
      → FirstOf ps r
      → FirstOf qs s
      → FirstOf (ps ++ qs) (or_next lib pallas assets r s)
  FirstOf-append ps qs (ok none) (ok none) f g = All-append (λ p. attempt p ≡ ok none) ps qs f g
  FirstOf-append ps qs (ok none) (ok (some l)) f (before, p, after, e, h, q) = (
    ps ++ before,
    p,
    after,
    later ps qs before p after e,
    All-append (λ x. attempt x ≡ ok none) ps before f h,
    q,
  )
  FirstOf-append ps qs (ok none) (err x) f (before, p, after, e, h, q) = (
    ps ++ before,
    p,
    after,
    later ps qs before p after e,
    All-append (λ x. attempt x ≡ ok none) ps before f h,
    q,
  )
  FirstOf-append ps qs (ok (some l)) s (before, p, after, e, h, q) g =
      (before, p, after ++ qs, earlier ps qs before p after e, h, q)
  FirstOf-append ps qs (err x) s (before, p, after, e, h, q) g =
      (before, p, after ++ qs, earlier ps qs before p after e, h, q)

  FirstOf-one : (p : Text × Text) → FirstOf (p ∷ []) (attempt p)
  FirstOf-one p = one p (attempt p) refl

  try_profiles-FirstOf :
      (tx_name : Text) (profiles : List Text)
      → FirstOf
          (map (λ p. (tx_name, p)) profiles)
          (try_profiles lib pallas assets tii tx_name profiles payload)
  unfolding try_profiles
  try_profiles-FirstOf tx_name [] = tt
  try_profiles-FirstOf tx_name (p ∷ profiles) =
      FirstOf-append ((tx_name, p) ∷ []) (map (λ q. (tx_name, q)) profiles) (attempt (tx_name, p))
        (try_profiles lib pallas assets tii tx_name profiles payload) (FirstOf-one (tx_name, p))
        (try_profiles-FirstOf tx_name profiles)

  try_all-FirstOf :
      (txs : List Text)
      → FirstOf (pairs txs (Map.keys tii.profiles)) (try_all lib pallas assets tii txs payload)
  unfolding try_all
  try_all-FirstOf [] = tt
  try_all-FirstOf (t ∷ txs) =
      FirstOf-append (map (λ p. (t, p)) (Map.keys tii.profiles)) (pairs txs (Map.keys tii.profiles))
        (try_profiles lib pallas assets tii t (Map.keys tii.profiles) payload)
        (try_all lib pallas assets tii txs payload) (try_profiles-FirstOf t (Map.keys tii.profiles))
        (try_all-FirstOf txs)

  try_transactions-FirstOf :
      (profile_name : Text) (txs : List Text)
      → FirstOf
          (map (λ t. (t, profile_name)) txs)
          (try_transactions lib pallas assets tii profile_name txs payload)
  unfolding try_transactions
  try_transactions-FirstOf profile_name [] = tt
  try_transactions-FirstOf profile_name (t ∷ txs) =
      FirstOf-append ((t, profile_name) ∷ []) (map (λ x. (x, profile_name)) txs)
        (attempt (t, profile_name))
        (try_transactions lib pallas assets tii profile_name txs payload)
        (FirstOf-one (t, profile_name)) (try_transactions-FirstOf profile_name txs)

  -- `route_and_lift` tries every transaction with every profile, transaction by transaction, and
  -- `route_and_lift_with_profile` every transaction with the one profile. Each returns what the first
  -- pair gives that does not simply fail to match, its lift or its error, and `None` only where no
  -- pair matches.
  pub route_and_lift-FirstOf :
      FirstOf
        (pairs (Map.keys tii.transactions) (Map.keys tii.profiles))
        (route_and_lift lib pallas assets tii payload)
      × ((profile_name : Text)
          → FirstOf
              (map (λ t. (t, profile_name)) (Map.keys tii.transactions))
              (route_and_lift_with_profile lib pallas assets tii profile_name payload))
  unfolding route_and_lift route_and_lift_with_profile
  route_and_lift-FirstOf = (
    try_all-FirstOf (Map.keys tii.transactions),
    λ profile_name. try_transactions-FirstOf profile_name (Map.keys tii.transactions),
  )
