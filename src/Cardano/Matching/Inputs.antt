-- ===== src/Cardano/Matching/Inputs.antt =====
-- crates/tx3-lift-cardano/src/matching.rs: what an assignment promises of the inputs.
use mathlib.Core.Path.{subst}
use tx3_lift.Prelude.Order.{nat_ord, list_ord, ==_iff}
use tx3_lift.Prelude.{
  as_u32, arith, ℕ, zero, suc, ◌≡◌, refl, sym, ap, inl, inr, Bool, true, false, Option, none, some,
  List, [], ◌∷◌, ◌++◌, In, In-append, In-map_inv, get_elem?, Bool-cases, Option-cases, some_inj,
  is_empty,
}
use tx3_lift.Lift.Tir.{Input, Expression, InputQuery, TirUtxoRef, query_address, query_many}
use tx3_lift.Lift.Expr.{const_address, const_utxo_refs, expect_input_query}
use tx3_lift.Cardano.Ledger.{ref_key, OutputRef, Pallas, CardanoPayload}
use tx3_lift.Cardano.Matching.{
  Taken, claim, claim_all, is_ref, input_fits, assign_refs, assign_input_by_query, assign_input,
  assign_inputs,
}
use tx3_lift.Cardano.Matching.Claims.{claim-In}

-- the item in the slot, and that it fits
abbrev pub Holds : {A : Type 0} → (A → Type 0) → List A → ℕ → Type 0
Holds {A} P xs s = (x : A) × (get_elem? xs s ≡ some x) × P x

module _ {A : Type 0} (p : A → Bool) where
  claim_all-In :
      (xs : List A) (flags : List Bool) (s : ℕ)
      → In s (claim_all p xs flags).0
      → Holds (λ x. p x ≡ true) xs s
  claim_all-In [] flags s m = absurd m
  claim_all-In (x ∷ xs) [] s m = absurd m
  claim_all-In (x ∷ xs) (true ∷ flags) s m =
      let (t, i, e) = In-map_inv suc (claim_all p xs flags).0 s m in
      rw e (claim_all-In xs flags t i)
  claim_all-In (x ∷ xs) (false ∷ flags) s m = elim (Bool-cases (p x)) [
    | inl y ↦ elim (rw y at m) [
      | inl z ↦ rw z (x, refl, y)
      | inr n ↦
          let (t, i, e) = In-map_inv suc (claim_all p xs flags).0 s n in
          rw e (claim_all-In xs flags t i)
    ]
    | inr n ↦
        let (t, i, e) = In-map_inv suc (claim_all p xs flags).0 s (rw n at m) in
        rw e (claim_all-In xs flags t i)
  ]

pub is_ref-key :
    (r : TirUtxoRef) (oref : OutputRef) → is_ref r oref ≡ true → ref_key oref ≡ (r.txid, r.index)
is_ref-key r oref h =
    let same : oref.hash ≡ r.txid = (==_iff oref.hash r.txid).0 (ground arith) in
    let index : as_u32 oref.index ≡ r.index = ground arith in rw (same, index) refl

-- an input that is one of the references
abbrev pub IsOneOf : List TirUtxoRef → OutputRef → Type 0
IsOneOf refs oref = (r : TirUtxoRef) × In r refs × (is_ref r oref ≡ true)

assign_refs-IsOneOf :
    (refs : List TirUtxoRef) (inputs : List OutputRef) (flags : List Bool) (t : Taken) (s : ℕ)
    → assign_refs refs inputs flags ≡ some t
    → In s t.0
    → Holds (IsOneOf refs) inputs s
unfolding assign_refs
assign_refs-IsOneOf [] inputs flags t s h m =
    absurd (rw (ap (λ (u : Taken). u.0) (sym (some_inj h))) at m)
assign_refs-IsOneOf (r ∷ refs) inputs flags t s h m =
    let c = claim (is_ref r) inputs flags in
    elim (Bool-cases (is_empty c.0)) [
      | inl y ↦ let bad : none ≡ some t = rw y at h in cc
      | inr n ↦ elim (Option-cases (assign_refs refs inputs c.1)) [
        | inl e ↦ let bad : none ≡ some t = rw (n, e) at h in cc
        | inr (more, e) ↦
            let same : c.0 ++ more.0 ≡ t.0 = ap (λ (u : Taken). u.0) (some_inj (rw (n, e) at h)) in
            elim ((In-append s c.0 more.0).0 (subst (In s) (sym same) m)) [
              | inl i ↦
                  let (x, g, p) = (claim-In (is_ref r) inputs flags s i).0 in
                  (x, g, (r, inl refl, p))
              | inr i ↦
                  let (x, g, (q, j, p)) = assign_refs-IsOneOf refs inputs c.1 more s e i in
                  (x, g, (q, inr j, p))
            ]
      ]
    ]

module _ (pallas : Pallas) (payload : CardanoPayload) where
  -- what an input of the TIR asks of an input of the payload: to be one of its constant references,
  -- or to be at the constant address of its query
  abbrev pub SlotFits : Option (List TirUtxoRef) → Option InputQuery → OutputRef → Type 0
  SlotFits (some refs) found oref = IsOneOf refs oref
  SlotFits none (some query) oref =
      input_fits pallas payload (const_address (query_address query)) oref ≡ true
  SlotFits none none oref = ⊥

  assign_input_by_query-fits :
      (query : InputQuery) (inputs : List OutputRef) (flags : List Bool) (s : ℕ)
      → In s (assign_input_by_query pallas payload query inputs flags).0
      → Holds (SlotFits none (some query)) inputs s
  unfolding assign_input_by_query
  assign_input_by_query-fits query inputs flags s m = elim (Bool-cases (query_many query)) [
    | inl y ↦
        claim_all-In (input_fits pallas payload (const_address (query_address query))) inputs flags
          s (rw y at m)
    | inr n ↦
        (claim-In (input_fits pallas payload (const_address (query_address query))) inputs flags s
          (rw n at m)).0
  ]

  assign_input-fits :
      (utxos : Expression) (inputs : List OutputRef) (flags : List Bool) (t : Taken) (s : ℕ)
      → assign_input pallas payload utxos inputs flags ≡ some t
      → In s t.0
      → Holds (SlotFits (const_utxo_refs utxos) (expect_input_query utxos)) inputs s
  unfolding assign_input
  assign_input-fits utxos inputs flags t s h m = elim (Option-cases (const_utxo_refs utxos)) [
    | inr (refs, e) ↦ rw e (assign_refs-IsOneOf refs inputs flags t s (rw (e, assign_input) at h) m)
    | inl e ↦ elim (Option-cases (expect_input_query utxos)) [
      | inr (query, q) ↦
          let same = ap (λ (u : Taken). u.0) (some_inj (rw (e, assign_input, q) at h)) in
          rw (e, q) (assign_input_by_query-fits query inputs flags s (subst (In s) (sym same) m))
      | inl q ↦
          let same = ap (λ (u : Taken). u.0) (some_inj (rw (e, assign_input, q) at h)) in
          absurd (subst (In s) (sym same) m)
    ]
  ]

  pub assign_inputs-fits :
      (is : List Input) (inputs : List OutputRef) (flags : List Bool) (m : List (List ℕ)) (k s : ℕ)
      (i : Input) (slots : List ℕ)
      → assign_inputs pallas payload is inputs flags ≡ some m
      → get_elem? is k ≡ some i
      → get_elem? m k ≡ some slots
      → In s slots
      → Holds (SlotFits (const_utxo_refs i.utxos) (expect_input_query i.utxos)) inputs s
  unfolding assign_inputs
  assign_inputs-fits [] inputs flags m k s i slots h hi hm j = cc
  assign_inputs-fits (o ∷ is) inputs flags m k s i slots h hi hm j =
      elim (Option-cases (assign_input pallas payload o.utxos inputs flags)) [
        | inl e ↦ let bad : none ≡ some m = rw (e, assign_inputs) at h in cc
        | inr (t, e) ↦ elim (Option-cases (assign_inputs pallas payload is inputs t.1)) [
          | inl q ↦ let bad : none ≡ some m = rw (e, assign_inputs, q) at h in cc
          | inr (more, q) ↦
              at_slot k hi t more
                (subst (λ z. get_elem? z k ≡ some slots)
                  (sym (some_inj (rw (e, assign_inputs, q) at h))) hm)
                e (λ n. assign_inputs-fits is inputs t.1 more n s i slots q)
        ]
      ]
    where
      at_slot :
          (n : ℕ)
          → get_elem? (o ∷ is) n ≡ some i
          → (t : Taken) (more : List (List ℕ)) → get_elem? (t.0 ∷ more) n ≡ some slots
          → assign_input pallas payload o.utxos inputs flags ≡ some t
          → ((n : ℕ)
              → get_elem? is n ≡ some i
              → get_elem? more n ≡ some slots
              → In s slots
              → Holds (SlotFits (const_utxo_refs i.utxos) (expect_input_query i.utxos)) inputs s)
          → Holds (SlotFits (const_utxo_refs i.utxos) (expect_input_query i.utxos)) inputs s
      at_slot zero a t more b e ih =
          subst
            (λ (x : Input).
              Holds (SlotFits (const_utxo_refs x.utxos) (expect_input_query x.utxos)) inputs s)
            (some_inj a)
            (assign_input-fits o.utxos inputs flags t s e (subst (In s) (sym (some_inj b)) j))
      at_slot (suc n) a t more b e ih = ih n a b j
