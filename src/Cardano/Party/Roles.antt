-- ===== src/Cardano/Party/Roles.antt =====
-- crates/tx3-lift-cardano/src/lifting.rs: the roles of the parties after a `lift`.
use mathlib.Core.Option
use mathlib.Core.Path.{subst}
use Prim.Native.Nat.Ordering.{lt}
use tx3_lift.Prelude.{
  ◌≡◌, refl, ap, inl, inr, Bool, true, false, ◌||◌, Option, none, some, [], ◌∷◌, Bytes, Text, All,
  Bool-cases, arith,
}
use tx3_lift.Prelude.Order.{nat_ord, list_ord, text_ord, ==_iff, ◌==◌}
use tx3_lift.Collections.Map
use tx3_lift.Collections.Map.{IsAscending}
use tx3_lift.Lift.Lifted.{
  PartyRole, as_input, as_output, as_signer, multiple, absent, PartyAnnotation,
}
use tx3_lift.Cardano.Party.{Parties, combine_role, match_party}

-- the annotation names the party
abbrev pub names : Text → Option Text → Bool
names k none = false
names k (some n) = n == k

-- what the annotations say of a party: in inputs, in outputs, among the signers
abbrev pub role_of : Bool → Bool → Bool → PartyRole
role_of false false false = absent
role_of true false false = as_input
role_of false true false = as_output
role_of false false true = as_signer
role_of _ _ _ = multiple

abbrev pub bump : Bool → PartyRole → PartyAnnotation → PartyAnnotation
bump true role p = record p { role = combine_role p.role role }
bump false role p = p

combine_role_again :
    (r : PartyRole) (role : PartyRole)
    → combine_role (combine_role r role) role ≡ combine_role r role
unfolding combine_role
combine_role_again r role = ground arith

pub bump_twice :
    (b c : Bool) (role : PartyRole) (o : Option PartyAnnotation)
    → Option.map (bump c role) (Option.map (bump b role) o) ≡ Option.map (bump (b || c) role) o
bump_twice b c role none = refl
bump_twice true true role (some p) =
    ap (λ r. some (record p { role = r })) (combine_role_again p.role role)
bump_twice true false role (some p) = refl
bump_twice false c role (some p) = refl

pub bump-false :
    (role : PartyRole) (o : Option PartyAnnotation) → o ≡ Option.map (bump false role) o
bump-false role none = refl
bump-false role (some p) = refl

-- `match_party` changes one entry, the one that it names
match_party-All :
    (Q : Text → Type 0) (a : Bytes) (ps : Parties) (role : PartyRole)
    → All (λ e. Q e.0) ps
    → All (λ e. Q e.0) (match_party a ps role).1
unfolding match_party
match_party-All Q a [] role h = tt
match_party-All Q a ((n, p) ∷ ps) role h = elim (Bool-cases (p.address == a)) [
  | inl e ↦ rw e h
  | inr e ↦ rw e (h.0, match_party-All Q a ps role h.1)
]

pub match_party-IsAscending :
    (a : Bytes) (ps : Parties) (role : PartyRole)
    → IsAscending ps
    → IsAscending (match_party a ps role).1
unfolding match_party
match_party-IsAscending a [] role h = tt
match_party-IsAscending a ((n, p) ∷ ps) role h = elim (Bool-cases (p.address == a)) [
  | inl e ↦ rw e h
  | inr e ↦ rw e (
    match_party-All (λ m. text_ord.cmp n m ≡ lt) a ps role h.0,
    match_party-IsAscending a ps role h.1,
  )
]

below-names :
    (k : Text) (a : Bytes) (ps : Parties) (role : PartyRole)
    → All (λ e. text_ord.cmp k e.0 ≡ lt) ps
    → names k (match_party a ps role).0 ≡ false
unfolding match_party
below-names k a [] role h = refl
below-names k a ((n, p) ∷ ps) role h = elim (Bool-cases (p.address == a)) [
  | inl e ↦ rw e (ground (arith, h.0, text_ord.cmp_swap k n))
  | inr e ↦ rw e (below-names k a ps role h.1)
]

pub get-match_party :
    (k : Text) (a : Bytes) (ps : Parties) (role : PartyRole)
    → IsAscending ps
    → Map.get (match_party a ps role).1 k
      ≡ Option.map (bump (names k (match_party a ps role).0) role) (Map.get ps k)
unfolding match_party
get-match_party k a [] role h = refl
get-match_party k a ((n, p) ∷ ps) role h = elim (Bool-cases (p.address == a)) [
  | inl e ↦ elim (Bool-cases (n == k)) [
    | inl q ↦ rw (e, q) refl
    | inr q ↦ rw (e, q) (bump-false role (Map.get ps k))
  ]
  | inr e ↦ elim (Bool-cases (n == k)) [
    | inl q ↦
        let same : n ≡ k = (==_iff n k).0 q in
        rw
          (
            e,
            q,
            below-names k a ps role (subst (λ z. All (λ x. text_ord.cmp z x.0 ≡ lt) ps) same h.0),
          )
          refl
    | inr q ↦ rw (e, q) (get-match_party k a ps role h.1)
  ]
]
