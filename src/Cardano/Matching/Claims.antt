-- ===== src/Cardano/Matching/Claims.antt =====
-- crates/tx3-lift-cardano/src/matching.rs: the slot that one search of the payload takes, and
-- those that a run of searches takes one after the other.
use tx3_lift.Prelude.{
  is_empty, ℕ, zero, suc, ◌≡◌, refl, sym, ap, ◌∙◌, inl, inr, Bool, true, false, some, List, [], ◌∷◌,
  map, In, In-map_inv, get_elem?, Bool-cases, some_inj,
}
use tx3_lift.Cardano.Matching.{claim}

pub is_empty-map : {A B : Type 0} (f : A → B) (xs : List A) → is_empty (map f xs) ≡ is_empty xs
is_empty-map f [] = refl
is_empty-map f (x ∷ xs) = refl

module _ {A : Type 0} (p : A → Bool) where
  -- a slot of the payload that was free, fits, and is now taken
  abbrev pub FreshSlot : List A → List Bool → List Bool → ℕ → Type 0
  FreshSlot xs flags flags' s =
      ((x : A) × (get_elem? xs s ≡ some x) × (p x ≡ true))
      × (get_elem? flags s ≡ some false)
      × (get_elem? flags' s ≡ some true)

  later-In :
      (b : Bool) (x : A) (xs : List A) (flags flags' : List Bool) (slots : List ℕ) (s : ℕ)
      → ((t : ℕ) → In t slots → FreshSlot xs flags flags' t)
      → In s (map suc slots)
      → FreshSlot (x ∷ xs) (b ∷ flags) (b ∷ flags') s
  later-In b x xs flags flags' slots s h m =
      let (t, i, e) = In-map_inv suc slots s m in rw e (h t i)

  pub claim-In :
      (xs : List A) (flags : List Bool) (s : ℕ)
      → In s (claim p xs flags).0
      → FreshSlot xs flags (claim p xs flags).1 s
  claim-In [] flags s m = absurd m
  claim-In (x ∷ xs) [] s m = absurd m
  claim-In (x ∷ xs) (true ∷ flags) s m =
      later-In true x xs flags (claim p xs flags).1 (claim p xs flags).0 s (claim-In xs flags) m
  claim-In (x ∷ xs) (false ∷ flags) s m = elim (Bool-cases (p x)) [
    | inl e ↦ rw e (elim (rw e at m) [ inl z ↦ rw z ((x, refl, e), refl, refl) | inr n ↦ absurd n ])
    | inr e ↦ rw e (
        later-In false x xs flags (claim p xs flags).1 (claim p xs flags).0 s (claim-In xs flags)
          (rw e at m))
  ]

  pub claim_keeps :
      (xs : List A) (flags : List Bool) (s : ℕ)
      → get_elem? flags s ≡ some true
      → get_elem? (claim p xs flags).1 s ≡ some true
  claim_keeps [] flags s h = h
  claim_keeps (x ∷ xs) [] s h = h
  claim_keeps (x ∷ xs) (true ∷ flags) zero h = h
  claim_keeps (x ∷ xs) (true ∷ flags) (suc s) h = claim_keeps xs flags s h
  claim_keeps (x ∷ xs) (false ∷ flags) zero h = cc
  claim_keeps (x ∷ xs) (false ∷ flags) (suc s) h = elim (Bool-cases (p x)) [
    | inl e ↦ rw e h
    | inr e ↦ rw e (claim_keeps xs flags s h)
  ]

-- the assignment `m` is what searches for the items, one after the other, take
abbrev pub Claims :
    {A B : Type 0} → (B → A → Bool) → List A → List B → List Bool → List (List ℕ) → Type 0
Claims fits xs [] flags m = m ≡ []
Claims fits xs (o ∷ os) flags [] = ⊥
Claims fits xs (o ∷ os) flags (slots ∷ m) =
    (slots ≡ (claim (fits o) xs flags).0) × Claims fits xs os (claim (fits o) xs flags).1 m

module _ {A B : Type 0} (fits : B → A → Bool) (xs : List A) where
  pub Claims-fits :
      (os : List B) (flags : List Bool) (m : List (List ℕ)) (k s : ℕ) (o : B) (slots : List ℕ)
      → Claims fits xs os flags m
      → get_elem? os k ≡ some o
      → get_elem? m k ≡ some slots
      → In s slots
      → (x : A) × (get_elem? xs s ≡ some x) × (fits o x ≡ true)
  Claims-fits [] flags m k s o slots c ho hm i = cc
  Claims-fits (q ∷ os) flags [] k s o slots c ho hm i = absurd c
  Claims-fits (q ∷ os) flags (r ∷ m) zero s o slots c ho hm i =
      rw (sym (some_inj ho)) ((claim-In (fits q) xs flags s (rw (sym (some_inj hm) ∙ c.0) at i)).0)
  Claims-fits (q ∷ os) flags (r ∷ m) (suc k) s o slots c ho hm i =
      Claims-fits os (claim (fits q) xs flags).1 m k s o slots c.1 ho hm i

  -- a taken slot is not taken again
  pub Claims-free :
      (os : List B) (flags : List Bool) (m : List (List ℕ)) (k s : ℕ) (slots : List ℕ)
      → Claims fits xs os flags m
      → get_elem? flags s ≡ some true
      → get_elem? m k ≡ some slots
      → In s slots
      → ⊥
  Claims-free [] flags m k s slots c h hm i = cc
  Claims-free (q ∷ os) flags [] k s slots c h hm i = absurd c
  Claims-free (q ∷ os) flags (r ∷ m) zero s slots c h hm i =
      let (fit, free, after) = claim-In (fits q) xs flags s (rw (sym (some_inj hm) ∙ c.0) at i) in
      cc
  Claims-free (q ∷ os) flags (r ∷ m) (suc k) s slots c h hm i =
      Claims-free os (claim (fits q) xs flags).1 m k s slots c.1 (claim_keeps (fits q) xs flags s h)
        hm i

  pub Claims-distinct :
      (os : List B) (flags : List Bool) (m : List (List ℕ)) (j k s : ℕ) (a b : List ℕ)
      → Claims fits xs os flags m
      → get_elem? m j ≡ some a
      → get_elem? m k ≡ some b
      → In s a
      → In s b
      → j ≡ k
  Claims-distinct [] flags m j k s a b c hj hk i l = cc
  Claims-distinct (q ∷ os) flags [] j k s a b c hj hk i l = absurd c
  Claims-distinct (q ∷ os) flags (r ∷ m) zero zero s a b c hj hk i l = refl
  Claims-distinct (q ∷ os) flags (r ∷ m) zero (suc k) s a b c hj hk i l =
      let (fit, free, after) = claim-In (fits q) xs flags s (rw (sym (some_inj hj) ∙ c.0) at i) in
      absurd (Claims-free os (claim (fits q) xs flags).1 m k s b c.1 after hk l)
  Claims-distinct (q ∷ os) flags (r ∷ m) (suc j) zero s a b c hj hk i l =
      let (fit, free, after) = claim-In (fits q) xs flags s (rw (sym (some_inj hk) ∙ c.0) at l) in
      absurd (Claims-free os (claim (fits q) xs flags).1 m j s a c.1 after hj i)
  Claims-distinct (q ∷ os) flags (r ∷ m) (suc j) (suc k) s a b c hj hk i l =
      ap suc (Claims-distinct os (claim (fits q) xs flags).1 m j k s a b c.1 hj hk i l)
