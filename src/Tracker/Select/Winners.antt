-- ===== src/Tracker/Select/Winners.antt =====
-- Within-source dedup: the incumbent that is left for a source beats no less than its other
-- candidates.
use Prim.Native.Nat.Ordering.{lt, eq}
use mathlib.Core.Path.{subst}
use tx3_lift.Prelude.{
  ◌≤◌, ◌≡◌, refl, ◌⊎◌, inl, inr, ◌&&◌, Bool, true, false, Option, none, some, ◌≢◌, List, [], ◌∷◌,
  In, All, All-of_In, Pairwise, Text, arith, if◌then◌else◌, Bool-cases, Bool-cases, &&_iff, &&_iff,
  some_inj, In-map, In-map_inv, In-All, ap, ◌∙◌, sym,
}
use tx3_lift.Prelude.Order.{◌==◌, ==_iff, list_cmp, list_ord, text_ord, nat_ord}
use tx3_lift.Collections.Map
use tx3_lift.Collections.Map.{Map, get-insert, insert-IsAscending, All-insert, get-In, In-get}
use tx3_lift.Tracker.Select.{Candidate, replaces, best_per_source}

module _ {T : Type 0} where
  abbrev challenge : Text → Option (Candidate T) → Candidate T → Option (Candidate T)
  challenge s current c = if (c.source_name == s) && replaces c current then some c else current

  -- the same fold over the candidates of one source alone
  winner : Text → Option (Candidate T) → List (Candidate T) → Option (Candidate T)
  winner s current [] = current
  winner s current (c ∷ candidates) = winner s (challenge s current c) candidates

  -- `a` comes first: a higher score, or the same one and an earlier name
  abbrev pub beats : Candidate T → Candidate T → Bool
  beats a b = replaces a (some b)

  pub beats_asymm : (a b : Candidate T) → beats a b ≡ true → beats b a ≡ false
  beats_asymm a b = ground (arith, text_ord.cmp_swap a.tx_name b.tx_name)

  pub beats_self : (a : Candidate T) → beats a a ≡ false
  beats_self a = ground (arith, text_ord.cmp_self a.tx_name)

  -- transitivity of "does not beat"
  not_beats_trans :
      (a b c : Candidate T) → beats a b ≡ false → beats b c ≡ false → beats a c ≡ false
  not_beats_trans a b c = ground (
    arith,
    text_ord.cmp_swap a.tx_name b.tx_name,
    text_ord.cmp_swap b.tx_name c.tx_name,
    text_ord.cmp_swap a.tx_name c.tx_name,
    text_ord.eq_of_cmp a.tx_name b.tx_name,
    text_ord.eq_of_cmp b.tx_name c.tx_name,
    text_ord.lt_trans c.tx_name b.tx_name a.tx_name,
    text_ord.lt_trans a.tx_name c.tx_name b.tx_name,
    text_ord.lt_trans b.tx_name a.tx_name c.tx_name,
  )

  get-best_per_source :
      (candidates : List (Candidate T)) (m : Map Text (Candidate T)) (s : Text)
      → Map.get (best_per_source candidates m) s ≡ winner s (Map.get m s) candidates
  unfolding best_per_source winner
  get-best_per_source [] m s = refl
  get-best_per_source (c ∷ candidates) m s =
      get-best_per_source candidates _ s ∙ ap (λ w. winner s w candidates) step
    where
      step :
          Map.get
            (if replaces c (Map.get m c.source_name) then Map.insert c.source_name c m else m)
            s
          ≡ (if (c.source_name == s) && replaces c (Map.get m s) then some c else Map.get m s)
      step = elim (Bool-cases (c.source_name == s)) [
        | inl e ↦
            let same : c.source_name ≡ s = (==_iff c.source_name s).0 e in
            rw (← same) (elim (Bool-cases (replaces c (Map.get m c.source_name))) [
              | inl r ↦
                  rw (r, text_ord.cmp_self c.source_name)
                    (rw
                      (get-insert c.source_name c.source_name c m, text_ord.cmp_self c.source_name))
              | inr r ↦ rw (r, text_ord.cmp_self c.source_name)
            ])
        | inr e ↦ elim (Bool-cases (replaces c (Map.get m c.source_name))) [
          | inl r ↦ rw (r, e) (rw (get-insert c.source_name s c m, e))
          | inr r ↦ rw (r, e)
        ]
      ]

  -- a winner is the first incumbent or one of the candidates of its source
  winner_origin :
      (s : Text) (current : Option (Candidate T)) (candidates : List (Candidate T))
      (w : Candidate T)
      → winner s current candidates ≡ some w
      → (current ≡ some w) ⊎ (In w candidates × (w.source_name ≡ s))
  unfolding winner
  winner_origin s current [] w h = inl h
  winner_origin s current (c ∷ candidates) w h =
      elim (winner_origin s (challenge s current c) candidates w h) [
        | inl e ↦ elim (Bool-cases ((c.source_name == s) && replaces c current)) [
          | inl y ↦
              let same : c ≡ w = some_inj (rw y at e) in
              inr (
                inl (sym same),
                ap (λ (k : Candidate T). k.source_name) (sym same)
                    ∙ (==_iff c.source_name s).0 ((&&_iff _ _).0 y).0,
              )
          | inr n ↦ inl (rw n at e)
        ]
        | inr (i, q) ↦ inr (inr i, q)
      ]

  unbeaten_incumbent :
      (s : Text) (current : Option (Candidate T)) (c w : Candidate T)
      → ((v : Candidate T) → challenge s current c ≡ some v → beats v w ≡ false)
      → (v : Candidate T) → current ≡ some v
      → beats v w ≡ false
  unbeaten_incumbent s none c w old v e = cc
  unbeaten_incumbent s (some u) c w old v e =
      rw (← some_inj e) (elim (Bool-cases ((c.source_name == s) && beats c u)) [
        | inl y ↦
            not_beats_trans u c w (beats_asymm c u ((&&_iff _ _).0 y).1) (old c (rw (y, challenge)))
        | inr n ↦ old u (rw (n, challenge))
      ])

  unbeaten_challenger :
      (s : Text) (current : Option (Candidate T)) (c w : Candidate T)
      → ((v : Candidate T) → challenge s current c ≡ some v → beats v w ≡ false)
      → c.source_name ≡ s
      → beats c w ≡ false
  unbeaten_challenger s none c w old q = old c (rw ((==_iff c.source_name s).1 q))
  unbeaten_challenger s (some u) c w old q = elim (Bool-cases (beats c u)) [
    | inl y ↦ old c (rw ((==_iff c.source_name s).1 q, y))
    | inr n ↦ not_beats_trans c u w n (old u (rw ((==_iff c.source_name s).1 q, n)))
  ]

  challenge_keeps :
      (s : Text) (current : Option (Candidate T)) (c : Candidate T)
      (candidates : List (Candidate T))
      → (current ≢ none) ⊎ ((d : Candidate T) × In d (c ∷ candidates) × (d.source_name ≡ s))
      → (challenge s current c ≢ none) ⊎ ((d : Candidate T) × In d candidates × (d.source_name ≡ s))
  challenge_keeps s (some v) c candidates h = inl (ground arith)
  challenge_keeps s none c candidates (inl n) = absurd (n refl)
  challenge_keeps s none c candidates (inr (d, m, q)) = elim m [
    | inl e ↦
        let same =
          (==_iff c.source_name s).1 (ap (λ (k : Candidate T). k.source_name) (sym e) ∙ q) in
        inl (rw same (λ z. cc))
    | inr r ↦ inr (d, r, q)
  ]

  -- it is beaten by none of them
  winner_unbeaten :
      (s : Text) (current : Option (Candidate T)) (candidates : List (Candidate T))
      (w : Candidate T)
      → winner s current candidates ≡ some w
      → ((v : Candidate T) → current ≡ some v → beats v w ≡ false)
        × ((c : Candidate T) → In c candidates → c.source_name ≡ s → beats c w ≡ false)
  unfolding winner
  winner_unbeaten s current [] w h =
      (λ v e. rw (some_inj (sym e ∙ h)) (beats_self w), λ c m q. absurd m)
  winner_unbeaten s current (c ∷ candidates) w h =
      let (old, new) = winner_unbeaten s (challenge s current c) candidates w h in
      (
        λ v e. unbeaten_incumbent s current c w old v e,
        λ d m q. elim m [
          | inl e ↦ rw e (
              unbeaten_challenger s current c w old
                (ap (λ (k : Candidate T). k.source_name) (sym e) ∙ q))
          | inr r ↦ new d r q
        ],
      )

  -- a source with a candidate has a winner
  winner_exists :
      (s : Text) (current : Option (Candidate T)) (candidates : List (Candidate T))
      → (current ≢ none) ⊎ ((c : Candidate T) × In c candidates × (c.source_name ≡ s))
      → (w : Candidate T) × (winner s current candidates ≡ some w)
  unfolding winner
  winner_exists s none [] (inl n) = absurd (n refl)
  winner_exists s (some v) [] h = (v, refl)
  winner_exists s none [] (inr (c, m, q)) = absurd m
  winner_exists s current (c ∷ candidates) h =
      winner_exists s (challenge s current c) candidates (challenge_keeps s current c candidates h)

  Entries : Map Text (Candidate T) → Type 0
  Entries m = Map.IsAscending m × All (λ e. e.0 ≡ e.1.source_name) m

  best_per_source-Entries :
      (candidates : List (Candidate T)) (m : Map Text (Candidate T))
      → Entries m
      → Entries (best_per_source candidates m)
  unfolding best_per_source Entries
  best_per_source-Entries [] m h = h
  best_per_source-Entries (c ∷ candidates) m h =
      best_per_source-Entries candidates _
        (elim (replaces c (Map.get m c.source_name))
          as (λ b. Entries (if b then Map.insert c.source_name c m else m)) [
            | true ↦ (
              insert-IsAscending c.source_name c m h.0,
              All-insert (λ e. e.0 ≡ e.1.source_name) c.source_name c m refl h.1,
            )
            | false ↦ h
          ])

  abbrev incumbents : List (Candidate T) → Map Text (Candidate T)
  incumbents candidates = best_per_source candidates []

  incumbents-Entries : (candidates : List (Candidate T)) → Entries (incumbents candidates)
  unfolding Entries
  incumbents-Entries candidates = best_per_source-Entries candidates [] (tt, tt)

  unbeaten-le : (c w : Candidate T) → beats c w ≡ false → c.score ≤ w.score
  unbeaten-le c w = ground arith

  unbeaten-first :
      (c w : Candidate T)
      → beats c w ≡ false
      → c.score ≡ w.score
      → list_cmp c.tx_name w.tx_name ≢ lt
  unbeaten-first c w = ground arith

  -- what stays in the map: a candidate that no candidate of its source beats
  pub record IsWinner (candidates : List (Candidate T)) (w : Candidate T) : Type 0 where
    pub candidate : In w candidates
    pub highest :
        (c : Candidate T) → In c candidates → c.source_name ≡ w.source_name → c.score ≤ w.score
    pub first_name :
        (c : Candidate T)
        → In c candidates
        → c.source_name ≡ w.source_name
        → c.score ≡ w.score
        → list_cmp c.tx_name w.tx_name ≢ lt

  get-of_In :
      (candidates : List (Candidate T)) (w : Candidate T)
      → In w (Map.values (incumbents candidates))
      → winner w.source_name none candidates ≡ some w
  unfolding Entries
  get-of_In candidates w m =
      let (e, i, q) = In-map_inv (λ e. e.1) (incumbents candidates) w m in
      let (ascending, named) = incumbents-Entries candidates in
      let key : e.0 ≡ w.source_name =
        In-All (λ e. e.0 ≡ e.1.source_name) (incumbents candidates) e named i
        ∙ ap (λ (k : Candidate T). k.source_name) (sym q) in
      sym (get-best_per_source candidates [] w.source_name)
      ∙ get-In (incumbents candidates) w.source_name w ascending
          (subst (λ x. In x (incumbents candidates)) (λ j. (key j, sym q j)) i)

  pub values-IsWinner :
      (candidates : List (Candidate T)) (w : Candidate T)
      → In w (Map.values (incumbents candidates))
      → IsWinner candidates w
  values-IsWinner candidates w m =
      let h = get-of_In candidates w m in
      let best = winner_unbeaten w.source_name none candidates w h in
      record {
        candidate = elim (winner_origin w.source_name none candidates w h) [
          | inl e ↦ cc
          | inr (i, q) ↦ i
        ];
        highest = λ c i q. unbeaten-le c w (best.1 c i q);
        first_name = λ c i q. unbeaten-first c w (best.1 c i q);
      }

  pub values_unique :
      (candidates : List (Candidate T)) (v w : Candidate T)
      → In v (Map.values (incumbents candidates))
      → In w (Map.values (incumbents candidates))
      → v.source_name ≡ w.source_name
      → v ≡ w
  values_unique candidates v w i j q =
      some_inj (sym (get-of_In candidates v i) ∙ rw q (get-of_In candidates w j))

  pub values_complete :
      (candidates : List (Candidate T)) (c : Candidate T)
      → In c candidates
      → (w : Candidate T) × In w (Map.values (incumbents candidates))
        × (w.source_name ≡ c.source_name)
  values_complete candidates c m =
      let (w, e) = winner_exists c.source_name none candidates (inr (c, m, refl)) in
      let found = get-best_per_source candidates [] c.source_name ∙ e in
      let named : w.source_name ≡ c.source_name =
        elim (winner_origin c.source_name none candidates w e) [ inl n ↦ cc | inr (i, q) ↦ q ] in
      let entry = In-get (incumbents candidates) c.source_name w found in
      (w, In-map (λ e. e.1) (incumbents candidates) (c.source_name, w) entry, named)

  abbrev pub OtherSource : Candidate T → Candidate T → Type 0
  OtherSource a b = a.source_name ≢ b.source_name

  values_apart : (m : Map Text (Candidate T)) → Entries m → Pairwise OtherSource (Map.values m)
  unfolding Entries
  values_apart [] h = tt
  values_apart ((k, c) ∷ m) (a, n) = (
    All-of_In (OtherSource c) (Map.values m) (λ d i q.
        let (e, j, p) = In-map_inv (λ e. e.1) m d i in
        let named = In-All (λ e. e.0 ≡ e.1.source_name) m e n.1 j in
        let below = In-All (λ e. list_cmp k e.0 ≡ lt) m e a.0 j in
        let same : k ≡ e.0 = n.0 ∙ q ∙ ap (λ (x : Candidate T). x.source_name) p ∙ sym named in
        let self : list_cmp k e.0 ≡ eq = rw same (text_ord.cmp_self e.0) in cc),
    values_apart m (a.1, n.1),
  )

  -- no two survivors share a source
  pub incumbents_apart :
      (candidates : List (Candidate T)) → Pairwise OtherSource (Map.values (incumbents candidates))
  incumbents_apart candidates = values_apart (incumbents candidates) (incumbents-Entries candidates)
