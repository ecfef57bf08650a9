-- ===== src/Cardano/Lifting/Mentions.antt =====
-- crates/tx3-lift-cardano/src/lifting.rs: the roles after the loops and the signers.
use mathlib.Core.Option
use mathlib.Core.Path.{subst}
use tx3_lift.Prelude.{
  ◌≡◌, refl, sym, ap, ◌∙◌, inl, inr, Bool, true, false, Option, none, some, List, [], ◌∷◌, Text,
  In-All, any, Option-cases, Bool-cases, some_inj, ok, arith,
}
use tx3_lift.Prelude.Order.{nat_ord, list_ord, ==_iff, ◌==◌}
use tx3_lift.Collections.Map
use tx3_lift.Collections.Map.{IsAscending}
use tx3_lift.Lift.Tir.{Tx, TiiFile}
use tx3_lift.Lift.Library.{Library}
use tx3_lift.Lift.Lifted.{
  PartyRole, as_input, as_output, as_signer, absent, PartyAnnotation, InputAnnotation,
  OutputAnnotation, SignerAnnotation, Lifted,
}
use tx3_lift.Cardano.Ledger.{Pallas, CardanoPayload}
use tx3_lift.Cardano.Matching.{MatchAssignment}
use tx3_lift.Cardano.Lifting.{AssetLibrary, lift_outputs, lift}
use tx3_lift.Cardano.Party.{Parties, combine_role, add_role, update_signer_party_roles}
use tx3_lift.Cardano.Lifting.Parts.{lift-Parts}
use tx3_lift.Cardano.Party.Roles.{names, role_of, bump, bump_twice, bump-false}
use tx3_lift.Cardano.Lifting.Takes.{absent_parties-IsAbsent, lift_inputs-Takes, lift_outputs-Takes}

-- signers come after all annotations of inputs and outputs
add_role_lem :
    (k n : Text) (role : PartyRole) (ps : Parties)
    → Map.get (add_role role n ps) k ≡ Option.map (bump (n == k) role) (Map.get ps k)
add_role_lem k n role [] = refl
add_role_lem k n role ((m, p) ∷ ps) = elim (Bool-cases (m == n)) [
  | inl e ↦
      let same : m ≡ n = (==_iff m n).0 e in
      elim (Bool-cases (m == k)) [
        | inl q ↦ rw (e, q, subst (λ z. (z == k) ≡ true) same q) refl
        | inr q ↦ rw (e, q, subst (λ z. (z == k) ≡ false) same q) (bump-false role (Map.get ps k))
      ]
  | inr e ↦ elim (Bool-cases (m == k)) [
    | inr q ↦ rw (e, q) (add_role_lem k n role ps)
    | inl q ↦ elim (Bool-cases (n == k)) [
      | inr r ↦ rw (e, q, r) refl
      | inl r ↦ absurd (cc ((==_iff m n).1 ((==_iff m k).0 q ∙ sym ((==_iff n k).0 r))))
    ]
  ]
]

signers-Takes :
    (k : Text) (signers : List SignerAnnotation) (ps : Parties)
    → Map.get (update_signer_party_roles signers ps) k
      ≡ Option.map (bump (any (λ s. names k s.party) signers) as_signer) (Map.get ps k)
unfolding update_signer_party_roles
signers-Takes k [] ps = bump-false as_signer (Map.get ps k)
signers-Takes k (s ∷ signers) ps = elim (Option-cases s.party) [
  | inl e ↦ rw e (signers-Takes k signers ps)
  | inr (n, e) ↦ rw e (
      signers-Takes k signers (add_role as_signer n ps)
      ∙ ap (Option.map (bump (any (λ x. names k x.party) signers) as_signer))
          (add_role_lem k n as_signer ps)
      ∙ bump_twice (n == k) (any (λ x. names k x.party) signers) as_signer (Map.get ps k))
]

-- three loops one after the other, on a party that begins as absent
bump_all :
    (i o s : Bool) (q p : PartyAnnotation)
    → q.role ≡ absent
    → bump s as_signer (bump o as_output (bump i as_input q)) ≡ p
    → p.role ≡ role_of i o s
unfolding combine_role
bump_all i o s q p a e = ground arith

none-of :
    (k : Text) (s o i : Bool) (q : Option PartyAnnotation) (p : PartyAnnotation)
    → q ≡ none
    → Option.map (bump s as_signer) (Option.map (bump o as_output) (Option.map (bump i as_input) q))
      ≡ some p
    → ⊥
none-of k s o i none p n e = cc
none-of k s o i (some q) p n e = cc

module _ {A : Type 0} (lib : Library) (pallas : Pallas) (assets : AssetLibrary A) (tii : TiiFile)
    (tx_name profile_name : Text) (specialized : Tx) (payload : CardanoPayload) where
  -- After a lift that succeeds, for any assignment, the role of a party says exactly where the
  -- annotations name it: in inputs, in outputs or among the signers, `Multiple` for more than one of
  -- these, and `Absent` for none.
  pub lift-party_role :
      (assignment : MatchAssignment) (lifted : Lifted A) (k : Text) (party : PartyAnnotation)
      → lift lib pallas assets tii tx_name profile_name specialized payload assignment ≡ ok lifted
      → Map.get lifted.parties k ≡ some party
      → party.role
        ≡ role_of
            (any (λ x. names k x.party) lifted.inputs)
            (any (λ x. names k x.party) lifted.outputs)
            (any (λ s. names k s.party) lifted.signers)
  lift-party_role assignment lifted k party h g =
      let parts =
        lift-Parts lib pallas assets tii tx_name profile_name specialized payload assignment lifted
          h in
      let (asc, gone) =
        absent_parties-IsAbsent lib pallas assets k parts.profile.parties [] parts.parties tt tt
          parts.start in
      let inputs =
        lift_inputs-Takes lib pallas assets k payload parts.tx specialized 0 assignment.input_map
          parts.parties parts.parties1 parts.inputs asc parts.inputs_lifted in
      let loop = lift_outputs lib pallas assets parts.tx 0 assignment.output_map parts.parties1 in
      let outputs =
        lift_outputs-Takes lib pallas assets k parts.tx 0 assignment.output_map parts.parties1
          inputs.0 in
      let signers = signers-Takes k lifted.signers loop.1 in
      let final = ap (λ z. Map.get z k) (sym parts.parties_field) ∙ g in
      let ins : List (InputAnnotation A) → Bool = any (λ x. names k x.party) in
      let outs : List (OutputAnnotation A) → Bool = any (λ x. names k x.party) in
      let by : Bool = any (λ (s : SignerAnnotation). names k s.party) lifted.signers in
      let whole =
        ap (Option.map (bump by as_signer))
          (ap (Option.map (bump (outs loop.0) as_output)) (sym inputs.1) ∙ sym outputs.1)
        ∙ sym signers
        ∙ final in
      elim (Option-cases (Map.get parts.parties k)) [
        | inl n ↦
            absurd (
              none-of k by (outs loop.0) (ins parts.inputs) (Map.get parts.parties k) party n whole)
        | inr (q, e) ↦
            bump_all (ins parts.inputs) (outs loop.0) by q party
              (In-All (λ x. x.1.role ≡ absent) parts.parties (k, q) gone
                (Map.In-get parts.parties k q e))
              (some_inj (
                ap
                  (λ z. Option.map (bump by as_signer) (
                    Option.map (bump (outs loop.0) as_output)
                      (Option.map (bump (ins parts.inputs) as_input) z)))
                  (sym e)
                ∙ whole))
            ∙ ap (λ z. role_of (ins z) (outs loop.0) by) (sym parts.inputs_field)
            ∙ ap (λ z. role_of (ins lifted.inputs) (outs z) by) (sym parts.outputs_field)
      ]
