-- ===== src/Lift/Specialize/Arguments.antt =====
-- Which value an argument has: the caller's, else the party's address, else the environment's.
use tx3_lift.Prelude.{
  ◌≡◌, refl, inl, inr, Option, none, some, List, [], ◌∷◌, ok, ok_inj, Bytes, Text, Bool-cases,
  Option-cases, Result-cases, if◌then◌else◌, arith, ◌∙◌, ap, sym,
}
use tx3_lift.Prelude.Order.{nat_ord, list_ord, ◌==◌}
use tx3_lift.Collections.Map
use tx3_lift.Collections.Map.{Map, get-insert}
use tx3_lift.Lift.Tir.{Profile, ArgValue, arg_address, ArgMap}
use tx3_lift.Lift.Library.{Library}
use tx3_lift.Lift.Specialize.{
  insert_entries, insert_parties, environment_args, args_from_profile, decode_bech32_address,
}

-- the value of the last entry with the key, or what stood there before the entries
abbrev pub find_last : {V : Type 0} → Text → List (Text × V) → Option V
find_last k [] = none
find_last k ((j, v) ∷ es) = elim (find_last k es) [
  | some w ↦ some w
  | none ↦ if j == k then some v else none
]

abbrev or_else : {V : Type 0} → Option V → Option V → Option V
or_else (some v) other = some v
or_else none other = other

get-insert_entries :
    (es : List (Text × ArgValue)) (args : ArgMap) (k : Text)
    → Map.get (insert_entries es args) k ≡ or_else (find_last k es) (Map.get args k)
get-insert_entries [] args k = refl
get-insert_entries ((j, v) ∷ es) args k =
    ground (arith, get-insert_entries es (Map.insert j v args) k, get-insert j k v args)

module _ (lib : Library) where
  -- the address of the party, if the loop over the parties went through
  PartyArg : Option Text → Option ArgValue → Option ArgValue → Type 0
  PartyArg none before after = after ≡ before
  PartyArg (some address) before after =
      (b : Bytes) × (lib.bech32_decode address ≡ some b) × (after ≡ some (arg_address b))

  get-insert_parties :
      (ps : List (Text × Text)) (args out : ArgMap) (k : Text)
      → insert_parties lib ps args ≡ ok out
      → PartyArg (find_last k ps) (Map.get args k) (Map.get out k)
  unfolding insert_parties decode_bech32_address PartyArg
  get-insert_parties [] args out k h = ap (λ m. Map.get m k) (sym (ok_inj h))
  get-insert_parties ((j, a) ∷ ps) args out k h = elim (Option-cases (lib.bech32_decode a)) [
    | inl n ↦ absurd (cc)
    | inr (b, e) ↦
        let later : PartyArg (find_last k ps) (Map.get (Map.insert j (arg_address b) args) k)
            (Map.get out k) =
          get-insert_parties ps (Map.insert j (arg_address b) args) out k (ground arith) in
        elim (Option-cases (find_last k ps)) [
          | inr (w, q) ↦ rw (q, PartyArg) (rw (q, PartyArg) at later)
          | inl q ↦
              let fact = (rw (q, PartyArg) at later) ∙ get-insert j k (arg_address b) args in
              elim (Bool-cases (j == k)) [
                | inl y ↦ rw (q, y, PartyArg) (b, e, fact ∙ rw y)
                | inr n ↦ rw (q, n, PartyArg) (fact ∙ rw n)
              ]
        ]
  ]

  -- Where building the arguments succeeds, an argument that the caller gives has the caller's value;
  -- another that names a party is the decoded address of the party; and any other is what the
  -- environment gives. Of entries with one key the last counts.
  pub get-args_from_profile :
      (profile : Profile) (extra_args args : ArgMap) (k : Text)
      → args_from_profile lib profile extra_args ≡ ok args
      → ((v : ArgValue) → find_last k extra_args ≡ some v → Map.get args k ≡ some v)
        × ((address : Text)
            → find_last k extra_args ≡ none
            → find_last k profile.parties ≡ some address
            → (b : Bytes) × (lib.bech32_decode address ≡ some b)
              × (Map.get args k ≡ some (arg_address b)))
        × (find_last k extra_args ≡ none
            → find_last k profile.parties ≡ none
            → Map.get args k ≡ Map.get (environment_args lib profile.environment []) k)
  unfolding args_from_profile PartyArg
  get-args_from_profile profile extra_args args k h =
      let env = environment_args lib profile.environment [] in
      elim (Result-cases (insert_parties lib profile.parties env)) [
        | inr (e, q) ↦ absurd (cc)
        | inl (out, q) ↦
            let same : insert_entries extra_args out ≡ args = ground arith in
            let found : Map.get args k ≡ or_else (find_last k extra_args) (Map.get out k) =
              ap (λ m. Map.get m k) (sym same) ∙ get-insert_entries extra_args out k in
            let party = get-insert_parties profile.parties env out k q in
            (
              λ v e. found ∙ rw e,
              λ address e p. let (b, d, g) = (rw (p, PartyArg) at party) in (b, d, found ∙ rw e g),
              λ e p. found ∙ rw e (rw (p, PartyArg) at party),
            )
      ]
