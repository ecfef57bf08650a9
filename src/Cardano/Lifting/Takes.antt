-- ===== src/Cardano/Lifting/Takes.antt =====
-- crates/tx3-lift-cardano/src/lifting.rs: what the loops over inputs and outputs do to a role.
use mathlib.Core.Option
use mathlib.Core.Path.{subst}
use tx3_lift.Prelude.{
  ℕ, suc, ◌≡◌, refl, ap, ◌∙◌, inl, inr, Bool, false, ◌||◌, List, [], ◌∷◌, Bytes, Text, All, any,
  any-append, get_elem?, Option-cases, ok, ok_inj, map_err, >>=-ok,
}
use tx3_lift.Prelude.Order.{nat_ord, list_ord}
use tx3_lift.Collections.Map
use tx3_lift.Collections.Map.{IsAscending}
use tx3_lift.Lift.Tir.{Tx}
use tx3_lift.Lift.Library.{Library}
use tx3_lift.Lift.Specialize.{decode_bech32_address}
use tx3_lift.Lift.Lifted.{PartyRole, as_input, as_output, absent, InputAnnotation, OutputAnnotation}
use tx3_lift.Cardano.Ledger.{LedgerTx, Pallas, CardanoPayload, core, ref_key}
use tx3_lift.Cardano.Lifting.{
  AssetLibrary, absent_parties, resolved_parts, lift_input_slots, lift_inputs, lift_output_slots,
  lift_outputs,
}
use tx3_lift.Cardano.Party.{Parties, match_party, or_empty}
use tx3_lift.Cardano.Party.Roles.{
  names, bump, bump_twice, bump-false, match_party-IsAscending, get-match_party,
}

-- what a loop does to the entry of `k`: its role takes `role` in, if an annotation names `k`
abbrev pub Takes : Text → PartyRole → Bool → Parties → Parties → Type 0
Takes k role b ps ps' = IsAscending ps' × (Map.get ps' k ≡ Option.map (bump b role) (Map.get ps k))

pub Takes-nothing :
    (k : Text) (role : PartyRole) (ps : Parties) → IsAscending ps → Takes k role false ps ps
Takes-nothing k role ps h = (h, bump-false role (Map.get ps k))

pub Takes-both :
    (k : Text) (role : PartyRole) (b c : Bool) (ps qs rs : Parties)
    → Takes k role b ps qs
    → Takes k role c qs rs
    → Takes k role (b || c) ps rs
Takes-both k role b c ps qs rs h g =
    (g.0, g.1 ∙ ap (Option.map (bump c role)) h.1 ∙ bump_twice b c role (Map.get ps k))

pub match_party-Takes :
    (k : Text) (a : Bytes) (ps : Parties) (role : PartyRole)
    → IsAscending ps
    → Takes k role (names k (match_party a ps role).0) ps (match_party a ps role).1
match_party-Takes k a ps role h =
    (match_party-IsAscending a ps role h, get-match_party k a ps role h)

module _ {A : Type 0} (lib : Library) (pallas : Pallas) (assets : AssetLibrary A) (k : Text) where
  abbrev pub names_input : InputAnnotation A → Bool
  names_input x = names k x.party

  abbrev pub names_output : OutputAnnotation A → Bool
  names_output x = names k x.party

  abbrev TakesInput : Parties → List (InputAnnotation A) × Parties → Type 0
  TakesInput ps (xs, ps') = Takes k as_input (any names_input xs) ps ps'

  lift_output_slots-Takes :
      (tx : LedgerTx) (n : ℕ) (slots : List ℕ) (ps : Parties)
      → IsAscending ps
      → Takes k as_output
          (any names_output (lift_output_slots lib pallas assets tx n slots ps).0)
          ps
          (lift_output_slots lib pallas assets tx n slots ps).1
  unfolding lift_output_slots
  lift_output_slots-Takes tx n [] ps h = Takes-nothing k as_output ps h
  lift_output_slots-Takes tx n (s ∷ slots) ps h = elim (Option-cases (get_elem? tx.outputs s)) [
    | inl e ↦ rw (e, lift_output_slots) (lift_output_slots-Takes tx n slots ps h)
    | inr (o, e) ↦
        let m = match_party (or_empty o.address) ps as_output in
        let one = match_party-Takes k (or_empty o.address) ps as_output h in
        let more = lift_output_slots-Takes tx n slots m.1 one.0 in
        rw (e, lift_output_slots)
          (Takes-both k as_output (names k m.0)
            (any names_output (lift_output_slots lib pallas assets tx n slots m.1).0) ps m.1
            (lift_output_slots lib pallas assets tx n slots m.1).1 one more)
  ]

  pub lift_outputs-Takes :
      (tx : LedgerTx) (n : ℕ) (map' : List (List ℕ)) (ps : Parties)
      → IsAscending ps
      → Takes k as_output
          (any names_output (lift_outputs lib pallas assets tx n map' ps).0)
          ps
          (lift_outputs lib pallas assets tx n map' ps).1
  unfolding lift_outputs
  lift_outputs-Takes tx n [] ps h = Takes-nothing k as_output ps h
  lift_outputs-Takes tx n (slots ∷ map') ps h =
      let m = lift_output_slots lib pallas assets tx n slots ps in
      let one = lift_output_slots-Takes tx n slots ps h in
      let r = lift_outputs lib pallas assets tx (suc n) map' m.1 in
      let more = lift_outputs-Takes tx (suc n) map' m.1 one.0 in
      rw (any-append names_output m.0 r.0)
        (Takes-both k as_output (any names_output m.0) (any names_output r.0) ps m.1 r.1 one more)

  lift_input_slots-Takes :
      (payload : CardanoPayload) (tx : LedgerTx) (name : Text) (slots : List ℕ) (ps ps' : Parties)
      (xs : List (InputAnnotation A))
      → IsAscending ps
      → lift_input_slots lib pallas assets payload tx name slots ps ≡ ok (xs, ps')
      → Takes k as_input (any names_input xs) ps ps'
  unfolding lift_input_slots
  lift_input_slots-Takes payload tx name [] ps ps' xs h e =
      subst (TakesInput ps) (ok_inj e) (Takes-nothing k as_input ps h)
  lift_input_slots-Takes payload tx name (s ∷ slots) ps ps' xs h e =
      elim (Option-cases (get_elem? tx.inputs s)) [
        | inl q ↦
            lift_input_slots-Takes payload tx name slots ps ps' xs h (rw (q, lift_input_slots) at e)
        | inr (o, q) ↦
            let (parts, a, e1) =
              >>=-ok (resolved_parts lib pallas assets payload (ref_key o)) _ (xs, ps')
                (rw (q, lift_input_slots) at e) in
            let m = match_party parts.0 ps as_input in
            let one = match_party-Takes k parts.0 ps as_input h in
            let (rest, b, e2) =
              >>=-ok (lift_input_slots lib pallas assets payload tx name slots m.1) _ (xs, ps')
                e1 in
            let more = lift_input_slots-Takes payload tx name slots m.1 rest.1 rest.0 one.0 b in
            subst (TakesInput ps) (ok_inj e2)
              (Takes-both k as_input (names k m.0) (any names_input rest.0) ps m.1 rest.1 one more)
      ]

  pub lift_inputs-Takes :
      (payload : CardanoPayload) (tx : LedgerTx) (specialized : Tx) (n : ℕ) (map' : List (List ℕ))
      (ps ps' : Parties) (xs : List (InputAnnotation A))
      → IsAscending ps
      → lift_inputs lib pallas assets payload tx specialized n map' ps ≡ ok (xs, ps')
      → Takes k as_input (any names_input xs) ps ps'
  unfolding lift_inputs
  lift_inputs-Takes payload tx specialized n [] ps ps' xs h e =
      subst (TakesInput ps) (ok_inj e) (Takes-nothing k as_input ps h)
  lift_inputs-Takes payload tx specialized n (slots ∷ map') ps ps' xs h e =
      elim (Option-cases (get_elem? specialized.inputs n)) [
        | inl q ↦
            lift_inputs-Takes payload tx specialized (suc n) map' ps ps' xs h
              (rw (q, lift_inputs) at e)
        | inr (i, q) ↦
            let (found, a, e1) =
              >>=-ok (lift_input_slots lib pallas assets payload tx i.name slots ps) _ (xs, ps')
                (rw (q, lift_inputs) at e) in
            let one = lift_input_slots-Takes payload tx i.name slots ps found.1 found.0 h a in
            let (rest, b, e2) =
              >>=-ok (lift_inputs lib pallas assets payload tx specialized (suc n) map' found.1) _
                (xs, ps') e1 in
            let more =
              lift_inputs-Takes payload tx specialized (suc n) map' found.1 rest.1 rest.0 one.0 b in
            subst (TakesInput ps) (ok_inj e2) (
              rw (any-append names_input found.0 rest.0) (
                Takes-both k as_input (any names_input found.0) (any names_input rest.0) ps found.1
                  rest.1 one more))
      ]

  -- the parties that the lift starts from
  pub absent_parties-IsAbsent :
      (addresses : List (Text × Text)) (ps out : Parties)
      → IsAscending ps
      → All (λ e. e.1.role ≡ absent) ps
      → absent_parties lib pallas assets addresses ps ≡ ok out
      → IsAscending out × All (λ e. e.1.role ≡ absent) out
  unfolding absent_parties
  absent_parties-IsAbsent [] ps out h a e =
      subst (λ z. IsAscending z × All (λ x. x.1.role ≡ absent) z) (ok_inj e) (h, a)
  absent_parties-IsAbsent ((name, address) ∷ rest) ps out h a e =
      let (b, q, e1) = >>=-ok (map_err core (decode_bech32_address lib address)) _ out e in
      absent_parties-IsAbsent rest
        (Map.insert name (record { name = name; address = b; role = absent }) ps) out
        (Map.insert-IsAscending name (record { name = name; address = b; role = absent }) ps h)
        (Map.All-insert (λ x. x.1.role ≡ absent) name
          (record { name = name; address = b; role = absent }) ps refl a)
        e1
