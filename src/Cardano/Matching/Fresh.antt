-- ===== src/Cardano/Matching/Fresh.antt =====
-- crates/tx3-lift-cardano/src/matching.rs: an input of the payload is taken once.
use mathlib.Core.Path.{subst}
use tx3_lift.Prelude.{
  ℕ, zero, suc, ◌≡◌, ◌≢◌, refl, sym, ap, ◌∙◌, inl, inr, Bool, true, false, none, some, List, [],
  ◌∷◌, ◌++◌, map, In, In-append, In-map_inv, get_elem?, Bool-cases, Option-cases, some_inj,
  is_empty, Text,
}
use tx3_lift.Lift.Tir.{Tx, Input, Expression, InputQuery, TirUtxoRef, query_many}
use tx3_lift.Lift.Expr.{const_utxo_refs, expect_input_query}
use tx3_lift.Cardano.Ledger.{OutputRef, LedgerTx, Pallas, CardanoPayload}
use tx3_lift.Cardano.Matching.{
  Taken, MatchAssignment, claim, claim_all, unused, is_ref, assign_refs, assign_input_by_query,
  assign_input, assign_inputs,
}
use tx3_lift.Cardano.Matching.Claims.{claim-In, claim_keeps}
use tx3_lift.Cardano.Matching.Assigned.{IsMatch, match_tx-parts}

-- a search takes only slots that were not taken, and leaves them and all others that were taken
abbrev TakesFresh : List Bool → Taken → Type 0
TakesFresh flags t =
    ((s : ℕ) → In s t.0 → (get_elem? flags s ≢ some true) × (get_elem? t.1 s ≡ some true))
    × ((s : ℕ) → get_elem? flags s ≡ some true → get_elem? t.1 s ≡ some true)

nothing-TakesFresh : (flags : List Bool) → TakesFresh flags ([], flags)
nothing-TakesFresh flags = (λ s m. absurd m, λ s h. h)

both-TakesFresh :
    (flags : List Bool) (t u : Taken)
    → TakesFresh flags t
    → TakesFresh t.1 u
    → TakesFresh flags (t.0 ++ u.0, u.1)
both-TakesFresh flags t u h k = (
  λ s m. elim ((In-append s t.0 u.0).0 m) [
    | inl i ↦ ((h.0 s i).0, k.1 s (h.0 s i).1)
    | inr i ↦ (λ e. (k.0 s i).0 (h.1 s e), (k.0 s i).1)
  ],
  λ s e. k.1 s (h.1 s e),
)

claim-TakesFresh :
    {A : Type 0} (p : A → Bool) (xs : List A) (flags : List Bool)
    → TakesFresh flags (claim p xs flags)
claim-TakesFresh p xs flags = (
  λ s m.
      let (fit, free, taken) = claim-In p xs flags s m in
      (λ e. let bad = some_inj (sym free ∙ e) in cc, taken),
  claim_keeps p xs flags,
)

-- one more item before those of the search
shift-TakesFresh :
    (b c : Bool) (flags : List Bool) (t : Taken)
    → (b ≡ true → c ≡ true)
    → TakesFresh flags t
    → TakesFresh (b ∷ flags) (map suc t.0, c ∷ t.1)
shift-TakesFresh b c flags t k h = (
  λ s m. let (n, i, e) = In-map_inv suc t.0 s m in rw e (h.0 n i),
  λ s. elim s as (λ n. get_elem? (b ∷ flags) n ≡ some true → get_elem? (c ∷ t.1) n ≡ some true) [
    | zero ↦ λ e. ap some (k (some_inj e))
    | suc n ↦ h.1 n
  ],
)

claim_all-TakesFresh :
    {A : Type 0} (p : A → Bool) (xs : List A) (flags : List Bool)
    → TakesFresh flags (claim_all p xs flags)
claim_all-TakesFresh p [] flags = nothing-TakesFresh flags
claim_all-TakesFresh p (x ∷ xs) [] = nothing-TakesFresh []
claim_all-TakesFresh p (x ∷ xs) (true ∷ flags) =
    shift-TakesFresh true true flags (claim_all p xs flags) (λ e. e)
      (claim_all-TakesFresh p xs flags)
claim_all-TakesFresh p (x ∷ xs) (false ∷ flags) = elim (Bool-cases (p x)) [
  | inr n ↦ rw n (
      shift-TakesFresh false false flags (claim_all p xs flags) (λ e. e)
        (claim_all-TakesFresh p xs flags))
  | inl y ↦
      let more =
        shift-TakesFresh false true flags (claim_all p xs flags) (λ e. refl)
          (claim_all-TakesFresh p xs flags) in
      rw y (
        λ s m. elim m [ inl z ↦ rw z (λ e. let bad = some_inj e in cc, refl) | inr i ↦ more.0 s i ],
        more.1,
      )
]

assign_refs-TakesFresh :
    (refs : List TirUtxoRef) (inputs : List OutputRef) (flags : List Bool) (t : Taken)
    → assign_refs refs inputs flags ≡ some t
    → TakesFresh flags t
unfolding assign_refs
assign_refs-TakesFresh [] inputs flags t h =
    subst (TakesFresh flags) (some_inj h) (nothing-TakesFresh flags)
assign_refs-TakesFresh (r ∷ refs) inputs flags t h =
    let c = claim (is_ref r) inputs flags in
    elim (Bool-cases (is_empty c.0)) [
      | inl y ↦ let bad : none ≡ some t = rw y at h in cc
      | inr n ↦ elim (Option-cases (assign_refs refs inputs c.1)) [
        | inl e ↦ let bad : none ≡ some t = rw (n, e) at h in cc
        | inr (more, e) ↦ subst (TakesFresh flags) (some_inj (rw (n, e) at h)) (
            both-TakesFresh flags c more (claim-TakesFresh (is_ref r) inputs flags)
              (assign_refs-TakesFresh refs inputs c.1 more e))
      ]
    ]

module _ (pallas : Pallas) (payload : CardanoPayload) where
  assign_input_by_query-TakesFresh :
      (query : InputQuery) (inputs : List OutputRef) (flags : List Bool)
      → TakesFresh flags (assign_input_by_query pallas payload query inputs flags)
  unfolding assign_input_by_query
  assign_input_by_query-TakesFresh query inputs flags = elim (Bool-cases (query_many query)) [
    | inl y ↦ rw y (claim_all-TakesFresh _ inputs flags)
    | inr n ↦ rw n (claim-TakesFresh _ inputs flags)
  ]

  assign_input-TakesFresh :
      (utxos : Expression) (inputs : List OutputRef) (flags : List Bool) (t : Taken)
      → assign_input pallas payload utxos inputs flags ≡ some t
      → TakesFresh flags t
  unfolding assign_input
  assign_input-TakesFresh utxos inputs flags t h = elim (Option-cases (const_utxo_refs utxos)) [
    | inr (refs, e) ↦ assign_refs-TakesFresh refs inputs flags t (rw (e, assign_input) at h)
    | inl e ↦ elim (Option-cases (expect_input_query utxos)) [
      | inr (query, q) ↦
          subst (TakesFresh flags) (some_inj (rw (e, assign_input, q) at h))
            (assign_input_by_query-TakesFresh query inputs flags)
      | inl q ↦
          subst (TakesFresh flags) (some_inj (rw (e, assign_input, q) at h))
            (nothing-TakesFresh flags)
    ]
  ]

  -- the slots of an assignment, one input after the other
  abbrev Successive : List (List ℕ) → List Bool → Type 0
  Successive [] flags = Unit {0}
  Successive (slots ∷ m) flags =
      (flags' : List Bool) × TakesFresh flags (slots, flags') × Successive m flags'

  assign_inputs-Successive :
      (is : List Input) (inputs : List OutputRef) (flags : List Bool) (m : List (List ℕ))
      → assign_inputs pallas payload is inputs flags ≡ some m
      → Successive m flags
  unfolding assign_inputs
  assign_inputs-Successive [] inputs flags m h = subst (λ z. Successive z flags) (some_inj h) tt
  assign_inputs-Successive (i ∷ is) inputs flags m h =
      elim (Option-cases (assign_input pallas payload i.utxos inputs flags)) [
        | inl e ↦ let bad : none ≡ some m = rw (e, assign_inputs) at h in cc
        | inr (t, e) ↦ elim (Option-cases (assign_inputs pallas payload is inputs t.1)) [
          | inl q ↦ let bad : none ≡ some m = rw (e, assign_inputs, q) at h in cc
          | inr (more, q) ↦
              subst (λ z. Successive z flags) (some_inj (rw (e, assign_inputs, q) at h))
                (
                  t.1,
                  assign_input-TakesFresh i.utxos inputs flags t e,
                  assign_inputs-Successive is inputs t.1 more q,
                )
        ]
      ]

  Successive-free :
      (m : List (List ℕ)) (flags : List Bool) (k s : ℕ) (slots : List ℕ)
      → Successive m flags
      → get_elem? flags s ≡ some true
      → get_elem? m k ≡ some slots
      → In s slots
      → ⊥
  Successive-free [] flags k s slots c h g i = cc
  Successive-free (r ∷ m) flags zero s slots (flags', t, c) h g i =
      (t.0 s (subst (In s) (sym (some_inj g)) i)).0 h
  Successive-free (r ∷ m) flags (suc k) s slots (flags', t, c) h g i =
      Successive-free m flags' k s slots c (t.1 s h) g i

  Successive-distinct :
      (m : List (List ℕ)) (flags : List Bool) (j k s : ℕ) (a b : List ℕ)
      → Successive m flags
      → get_elem? m j ≡ some a
      → get_elem? m k ≡ some b
      → In s a
      → In s b
      → j ≡ k
  Successive-distinct [] flags j k s a b c g h p q = cc
  Successive-distinct (r ∷ m) flags zero zero s a b c g h p q = refl
  Successive-distinct (r ∷ m) flags zero (suc k) s a b (flags', t, c) g h p q =
      absurd (Successive-free m flags' k s b c (t.0 s (subst (In s) (sym (some_inj g)) p)).1 h q)
  Successive-distinct (r ∷ m) flags (suc j) zero s a b (flags', t, c) g h p q =
      absurd (Successive-free m flags' j s a c (t.0 s (subst (In s) (sym (some_inj h)) q)).1 g p)
  Successive-distinct (r ∷ m) flags (suc j) (suc k) s a b (flags', t, c) g h p q =
      ap suc (Successive-distinct m flags' j k s a b c g h p q)

module _ (pallas : Pallas) (specialized : Tx) (payload : CardanoPayload)
    (profile_name tx_name : Text) (tx : LedgerTx) (a : MatchAssignment) where
  -- When the payload decodes and the match succeeds, no input of the transaction is assigned to two
  -- inputs of the TIR.
  pub match_tx-input_slots_distinct :
      (j k s : ℕ) (l r : List ℕ)
      → IsMatch pallas specialized payload profile_name tx_name tx a
      → get_elem? a.input_map j ≡ some l
      → get_elem? a.input_map k ≡ some r
      → In s l
      → In s r
      → j ≡ k
  match_tx-input_slots_distinct j k s l r h hj hk i i' =
      Successive-distinct pallas payload a.input_map (unused tx.inputs) j k s l r
        (assign_inputs-Successive pallas payload specialized.inputs tx.inputs (unused tx.inputs)
          a.input_map (match_tx-parts pallas specialized payload profile_name tx_name tx a h).0)
        hj hk i i'
