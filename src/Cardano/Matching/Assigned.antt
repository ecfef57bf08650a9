-- ===== src/Cardano/Matching/Assigned.antt =====
-- crates/tx3-lift-cardano/src/matching.rs: what an assignment that `match_tx` returns promises of
-- the outputs, mints and burns.
use mathlib.Core.Option
use tx3_lift.Prelude.{
  ℕ, zero, suc, ◌≡◌, refl, sym, ap, ◌∙◌, inl, inr, Bool, true, false, Option, none, some, List, [],
  ◌∷◌, In, All, All-of_In, get_elem?, Bool-cases, some_inj, if◌then◌else◌, is_empty, not, ◌&&◌,
  Option-cases, Text, ok, ok_inj, ok_or, ◌>>=◌,
}
use tx3_lift.Lift.Tir.{Tx, Output, Mint}
use tx3_lift.Lift.Expr.{const_address, const_policies_in}
use tx3_lift.Cardano.Ledger.{LedgerOutput, PolicyAssets, LedgerTx, Pallas, CardanoPayload, parsed}
use tx3_lift.Cardano.Matching.{
  MatchAssignment, claim, output_fits, policy_fits, any_positive, any_negative, unused, ◌>>?◌,
  assign, assign_inputs, assign_outputs, assign_mints, assign_references, match_tx,
}
use tx3_lift.Cardano.Matching.Fits.{IsPaidTo, output_fits-IsPaidTo}
use tx3_lift.Cardano.Matching.Claims.{Claims, Claims-fits, Claims-distinct}

-- one more item: the rest of the assignment, and the test that let it be
pub cons-some :
    {b : Bool} {slots : List ℕ} {rest : Option (List (List ℕ))} {m : List (List ℕ)}
    → (if b then none else Option.map (◌∷◌ slots) rest) ≡ some m
    → (more : List (List ℕ)) × (b ≡ false) × (rest ≡ some more) × (m ≡ slots ∷ more)
cons-some {b} {slots} {rest} {m} h = elim (Bool-cases b) [
  | inl e ↦ cc
  | inr e ↦ elim (Option-cases rest) [ inl n ↦ cc | inr (more, s) ↦ (more, e, s, cc) ]
]

assign_outputs-Claims :
    (os : List Output) (xs : List LedgerOutput) (flags : List Bool) (m : List (List ℕ))
    → assign_outputs os xs flags ≡ some m
    → Claims (λ (o : Output). output_fits (const_address o.address)) xs os flags m
unfolding assign_outputs
assign_outputs-Claims [] xs flags m h = sym (some_inj h)
assign_outputs-Claims (o ∷ os) xs flags m h =
    let (more, b, e, q) = cons-some h in
    rw q (
      refl,
      assign_outputs-Claims os xs (claim (output_fits (const_address o.address)) xs flags).1 more e,
    )

assign_outputs-needed :
    (os : List Output) (xs : List LedgerOutput) (flags : List Bool) (m : List (List ℕ))
    → assign_outputs os xs flags ≡ some m
    → (k : ℕ) (o : Output) (slots : List ℕ) → get_elem? os k ≡ some o
    → get_elem? m k ≡ some slots
    → (is_empty slots && not o.optional) ≡ false
unfolding assign_outputs
assign_outputs-needed [] xs flags m h k o slots ho hm = cc
assign_outputs-needed (q ∷ os) xs flags m h zero o slots ho hm =
    let (more, b, e, c) = cons-some h in rw (sym (some_inj ho), sym (some_inj (rw c at hm))) b
assign_outputs-needed (q ∷ os) xs flags m h (suc k) o slots ho hm =
    let (more, b, e, c) = cons-some h in
    assign_outputs-needed os xs (claim (output_fits (const_address q.address)) xs flags).1 more e k
      o slots ho (rw c at hm)

module _ (signed : PolicyAssets → Bool) where
  abbrev pub mint_fits : Mint → PolicyAssets → Bool
  mint_fits m p = policy_fits (const_policies_in m.amount) p && signed p

  assign_mints-Claims :
      (ms : List Mint) (xs : List PolicyAssets) (flags : List Bool) (m : List (List ℕ))
      → assign_mints signed ms xs flags ≡ some m
      → Claims mint_fits xs ms flags m
  unfolding assign_mints
  assign_mints-Claims [] xs flags m h = sym (some_inj h)
  assign_mints-Claims (o ∷ ms) xs flags m h =
      let (more, b, e, q) = cons-some h in
      rw q (refl, assign_mints-Claims ms xs (claim (mint_fits o) xs flags).1 more e)

  assign_mints-needed :
      (ms : List Mint) (xs : List PolicyAssets) (flags : List Bool) (m : List (List ℕ))
      → assign_mints signed ms xs flags ≡ some m
      → (k : ℕ) (slots : List ℕ) → get_elem? m k ≡ some slots
      → is_empty slots ≡ false
  unfolding assign_mints
  assign_mints-needed [] xs flags m h k slots hm = cc
  assign_mints-needed (q ∷ ms) xs flags m h zero slots hm =
      let (more, b, e, c) = cons-some h in rw (sym (some_inj (rw c at hm))) b
  assign_mints-needed (q ∷ ms) xs flags m h (suc k) slots hm =
      let (more, b, e, c) = cons-some h in
      assign_mints-needed ms xs (claim (mint_fits q) xs flags).1 more e k slots (rw c at hm)

bind-some :
    {A B : Type 0} (m : Option A) (f : A → Option B) (b : B)
    → (m >>? f) ≡ some b
    → (a : A) × (m ≡ some a) × (f a ≡ some b)
bind-some none f b h = cc
bind-some (some a) f b h = (a, refl, h)

module _ (pallas : Pallas) (specialized : Tx) (payload : CardanoPayload)
    (profile_name tx_name : Text) (tx : LedgerTx) (a : MatchAssignment) where
  -- the payload decodes to `tx`, and the match returns the assignment
  abbrev pub IsMatch : Type 0
  IsMatch =
      (pallas.decode_tx payload.raw ≡ some tx)
      × (match_tx pallas specialized payload profile_name tx_name ≡ ok (some a))

  match_tx-assign : IsMatch → assign pallas payload specialized tx profile_name tx_name ≡ some a
  unfolding match_tx parsed
  match_tx-assign h = ok_inj (rw (h.0, ok_or, ◌>>=◌) at h.1)

  pub match_tx-parts :
      IsMatch
      → (assign_inputs pallas payload specialized.inputs tx.inputs (unused tx.inputs)
          ≡ some a.input_map)
        × (assign_outputs specialized.outputs tx.outputs (unused tx.outputs) ≡ some a.output_map)
        × (assign_mints any_positive specialized.mints tx.mints (unused tx.mints) ≡ some a.mint_map)
        × (assign_mints any_negative specialized.burns tx.mints (unused tx.mints) ≡ some a.burn_map)
  unfolding assign
  match_tx-parts h =
      let (im, i, h1) =
        bind-some (assign_inputs pallas payload specialized.inputs tx.inputs (unused tx.inputs)) _ a
          (match_tx-assign h) in
      let (om, o, h2) =
        bind-some (assign_outputs specialized.outputs tx.outputs (unused tx.outputs)) _ a h1 in
      let (mm, m, h3) =
        bind-some (assign_mints any_positive specialized.mints tx.mints (unused tx.mints)) _ a h2 in
      let (bm, b, h4) =
        bind-some (assign_mints any_negative specialized.burns tx.mints (unused tx.mints)) _ a h3 in
      let (rm, r, h5) =
        bind-some
          (assign_references specialized.references tx.reference_inputs
            (unused tx.reference_inputs))
          _ a h4 in
      (
        i ∙ ap (λ (x : MatchAssignment). some x.input_map) (some_inj h5),
        o ∙ ap (λ (x : MatchAssignment). some x.output_map) (some_inj h5),
        m ∙ ap (λ (x : MatchAssignment). some x.mint_map) (some_inj h5),
        b ∙ ap (λ (x : MatchAssignment). some x.burn_map) (some_inj h5),
      )

  -- When the payload decodes and the match succeeds, the slots that it assigns to an output of
  -- the TIR are none only if the output is optional, and each is a slot of the transaction
  -- whose output has the address that the TIR's output fixes, if it fixes one.
  pub match_tx-output_slots :
      (k : ℕ) (o : Output) (slots : List ℕ)
      → IsMatch
      → get_elem? specialized.outputs k ≡ some o
      → get_elem? a.output_map k ≡ some slots
      → ((is_empty slots && not o.optional) ≡ false)
        × All
            (λ (s : ℕ).
              (x : LedgerOutput) × (get_elem? tx.outputs s ≡ some x)
              × IsPaidTo (const_address o.address) x)
            slots
  match_tx-output_slots k o slots h ho hm =
      let e = (match_tx-parts h).1 in
      (
        assign_outputs-needed specialized.outputs tx.outputs (unused tx.outputs) a.output_map e k o
            slots ho hm,
        All-of_In _ slots λ s i.
            let (x, g, f) =
              Claims-fits _ tx.outputs specialized.outputs (unused tx.outputs) a.output_map k s o
                slots
                (assign_outputs-Claims specialized.outputs tx.outputs (unused tx.outputs)
                  a.output_map e)
                ho hm i in
            (x, g, output_fits-IsPaidTo (const_address o.address) x f),
      )

  -- When the payload decodes and the match succeeds, no output of the transaction is assigned
  -- to two outputs of the TIR.
  pub match_tx-output_slots_distinct :
      (j k s : ℕ) (l r : List ℕ)
      → IsMatch
      → get_elem? a.output_map j ≡ some l
      → get_elem? a.output_map k ≡ some r
      → In s l
      → In s r
      → j ≡ k
  match_tx-output_slots_distinct j k s l r h hj hk i i' =
      Claims-distinct (λ (o : Output). output_fits (const_address o.address)) tx.outputs
        specialized.outputs (unused tx.outputs) a.output_map j k s l r
        (assign_outputs-Claims specialized.outputs tx.outputs (unused tx.outputs) a.output_map
          (match_tx-parts h).1)
        hj hk i i'

  -- When the payload decodes and the match succeeds, a mint of the TIR has at least one slot, and
  -- each of its slots is a policy of the transaction's mint field that has an asset with a
  -- positive amount and is one of the constant policies of the TIR's mint, if it has any.
  pub match_tx-mint_slots :
      (k : ℕ) (m : Mint) (slots : List ℕ)
      → IsMatch
      → get_elem? specialized.mints k ≡ some m
      → get_elem? a.mint_map k ≡ some slots
      → (is_empty slots ≡ false)
        × All
            (λ (s : ℕ).
              (x : PolicyAssets) × (get_elem? tx.mints s ≡ some x)
              × ((policy_fits (const_policies_in m.amount) x && any_positive x) ≡ true))
            slots
  match_tx-mint_slots k m slots h ho hm =
      let e = (match_tx-parts h).2 in
      (
        assign_mints-needed any_positive specialized.mints tx.mints (unused tx.mints) a.mint_map e k
            slots hm,
        All-of_In _ slots (λ s i.
            Claims-fits (mint_fits any_positive) tx.mints specialized.mints (unused tx.mints)
              a.mint_map k s m slots
              (assign_mints-Claims any_positive specialized.mints tx.mints (unused tx.mints)
                a.mint_map e)
              ho hm i),
      )

  -- When the payload decodes and the match succeeds, a burn of the TIR has at least one slot, and
  -- each of its slots is a policy of the transaction's mint field that has an asset with a
  -- negative amount and is one of the constant policies of the TIR's burn, if it has any.
  pub match_tx-burn_slots :
      (k : ℕ) (m : Mint) (slots : List ℕ)
      → IsMatch
      → get_elem? specialized.burns k ≡ some m
      → get_elem? a.burn_map k ≡ some slots
      → (is_empty slots ≡ false)
        × All
            (λ (s : ℕ).
              (x : PolicyAssets) × (get_elem? tx.mints s ≡ some x)
              × ((policy_fits (const_policies_in m.amount) x && any_negative x) ≡ true))
            slots
  match_tx-burn_slots k m slots h ho hm =
      let e = (match_tx-parts h).3 in
      (
        assign_mints-needed any_negative specialized.burns tx.mints (unused tx.mints) a.burn_map e k
            slots hm,
        All-of_In _ slots (λ s i.
            Claims-fits (mint_fits any_negative) tx.mints specialized.burns (unused tx.mints)
              a.burn_map k s m slots
              (assign_mints-Claims any_negative specialized.burns tx.mints (unused tx.mints)
                a.burn_map e)
              ho hm i),
      )
