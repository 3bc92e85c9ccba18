-- ===== src/Scheduler/BestFit/Chosen.antt =====
-- What `findBestFit` finds, and what it means that it finds nothing.
use glet.Common.{
  ℕ, ◌≤◌, ◌<◌, ◌≡◌, refl, ap, some-injective, ◌⊎◌, inl, inr, true, false, Option, none, some, List,
  [], ◌∷◌, arith, In, Bool-cases, Option-cases, str_eq,
}
use glet.Float.{Float}
use glet.Scheduler.State.{Node, Gpu, SimState, Store, Config}
use glet.Scheduler.BestFit.{skips, closer, best_of_nodes, best_of_gpus, find_best_fit}

module _ {F : Type 0} ⦃R : Float F⦄ (c : Config F) (s : Store F) where
  closer_cases :
      (input n : ℕ) (best : ℕ × ℕ)
      → ((closer c s input n best).1 ≡ n) ⊎ (closer c s input n best ≡ best)
  unfolding closer
  closer_cases input n (diff, ptr) = ground arith

  pub closer-le : (input n : ℕ) (best : ℕ × ℕ) → (closer c s input n best).0 ≤ best.0
  unfolding closer
  closer-le input n (diff, ptr) = ground arith

  closer-lt :
      (input n : ℕ) (best : ℕ × ℕ)
      → (s.nodes n).resource_pntg ≤ 100
      → (closer c s input n best).0 < 200
  unfolding closer
  closer-lt input n (diff, ptr) h = ground arith

  module _ (sim : SimState) (input : Node F) (exclude : List ℕ) where
    -- A node on a GPU of the list that has the type of the input, which the loop does not skip.
    abbrev pub IsCandidate : List ℕ → ℕ → Type 0
    IsCandidate gpus n =
        (g : ℕ) × In g gpus
        × (str_eq (s.gpus g).type input.type ≡ true)
        × In n (s.gpus g).node_list
        × (skips c s sim input exclude (s.gpus g) n ≡ some false)

    module _ (Q : ℕ → Type 0) where
      best_of_nodes_sound :
          (gpu : Gpu) (ns : List ℕ) (best best' : ℕ × ℕ)
          → ((n : ℕ) → In n ns → skips c s sim input exclude gpu n ≡ some false → Q n)
          → best_of_nodes c s sim input exclude gpu best ns ≡ some best'
          → (best.0 ≡ 200) ⊎ Q best.1
          → (best'.0 ≡ 200) ⊎ Q best'.1
      unfolding best_of_nodes
      best_of_nodes_sound gpu [] best best' q e good = rw (← some-injective _ _ e) good
      best_of_nodes_sound gpu (n ∷ ns) best best' q e good =
          elim (Option-cases (skips c s sim input exclude gpu n)) [
            | inl f ↦ absurd (ground arith)
            | inr (true, f) ↦
                best_of_nodes_sound gpu ns best best' (λ m i. q m (inr i)) (ground arith) good
            | inr (false, f) ↦
                best_of_nodes_sound gpu ns (closer c s input.resource_pntg n best) best'
                  (λ m i. q m (inr i)) (ground arith) (stays (q n (inl refl) f))
          ]
        where
          stays : Q n → let b = closer c s input.resource_pntg n best in (b.0 ≡ 200) ⊎ Q b.1
          stays here = elim (closer_cases input.resource_pntg n best) [
            | inl e' ↦ inr (rw e' here)
            | inr e' ↦ rw e' good
          ]

      pub best_of_gpus_sound :
          (gs : List ℕ) (best best' : ℕ × ℕ)
          → ((n : ℕ) → IsCandidate gs n → Q n)
          → best_of_gpus c s sim input exclude best gs ≡ some best'
          → (best.0 ≡ 200) ⊎ Q best.1
          → (best'.0 ≡ 200) ⊎ Q best'.1
      unfolding best_of_gpus
      best_of_gpus_sound [] best best' q e good = rw (← some-injective _ _ e) good
      best_of_gpus_sound (g ∷ gs) best best' q e good =
          elim (Bool-cases (str_eq (s.gpus g).type input.type)) [
            | inr other ↦ best_of_gpus_sound gs best best' later (ground arith) good
            | inl same ↦
                elim (Option-cases
                  (best_of_nodes c s sim input exclude (s.gpus g) best (s.gpus g).node_list)) [
                    | inl f ↦ absurd (ground arith)
                    | inr (best'', f) ↦ best_of_gpus_sound gs best'' best' later (ground arith) (
                        best_of_nodes_sound (s.gpus g) (s.gpus g).node_list best best''
                          (λ n i k. q n (g, inl refl, same, i, k)) f good)
                  ]
          ]
        where
          later : (n : ℕ) → IsCandidate gs n → Q n
          later n (g', i, same, j, k) = q n (g', inr i, same, j, k)

    pub best_of_nodes-le :
        (gpu : Gpu) (ns : List ℕ) (best best' : ℕ × ℕ)
        → best_of_nodes c s sim input exclude gpu best ns ≡ some best'
        → best'.0 ≤ best.0
    unfolding best_of_nodes
    best_of_nodes-le gpu [] best best' e = ground arith
    best_of_nodes-le gpu (n ∷ ns) best best' e =
        elim (Option-cases (skips c s sim input exclude gpu n)) [
          | inl f ↦ absurd (ground arith)
          | inr (true, f) ↦ best_of_nodes-le gpu ns best best' (ground arith)
          | inr (false, f) ↦
              let b = closer c s input.resource_pntg n best in
              let e' : best_of_nodes c s sim input exclude gpu b ns ≡ some best' = ground arith in
              omega
                (arith, best_of_nodes-le gpu ns b best' e', closer-le input.resource_pntg n best)
        ]

    pub best_of_gpus-le :
        (gs : List ℕ) (best best' : ℕ × ℕ)
        → best_of_gpus c s sim input exclude best gs ≡ some best'
        → best'.0 ≤ best.0
    unfolding best_of_gpus
    best_of_gpus-le [] best best' e = ground arith
    best_of_gpus-le (g ∷ gs) best best' e = elim (Bool-cases (str_eq (s.gpus g).type input.type)) [
      | inr other ↦ best_of_gpus-le gs best best' (ground arith)
      | inl same ↦
          elim (Option-cases
            (best_of_nodes c s sim input exclude (s.gpus g) best (s.gpus g).node_list)) [
              | inl f ↦ absurd (ground arith)
              | inr (best'', f) ↦
                  let e' : best_of_gpus c s sim input exclude best'' gs ≡ some best' =
                    ground arith in
                  omega (
                    arith,
                    best_of_gpus-le gs best'' best' e',
                    best_of_nodes-le (s.gpus g) (s.gpus g).node_list best best'' f,
                  )
            ]
    ]

    module _ (small : (n : ℕ) → (s.nodes n).resource_pntg ≤ 100) where
      best_of_nodes-skipped :
          (gpu : Gpu) (ns : List ℕ) (best best' : ℕ × ℕ)
          → best_of_nodes c s sim input exclude gpu best ns ≡ some best'
          → 200 ≤ best'.0
          → (n : ℕ) → In n ns
          → ¬ (skips c s sim input exclude gpu n ≡ some false)
      unfolding best_of_nodes
      best_of_nodes-skipped gpu [] best best' e none_found n i k = i
      best_of_nodes-skipped gpu (m ∷ ns) best best' e none_found n i k =
          elim (Option-cases (skips c s sim input exclude gpu m)) [
            | inl f ↦ ground arith
            | inr (true, f) ↦ elim i [
              | inl j ↦ ground (arith, ap (skips c s sim input exclude gpu) j)
              | inr j ↦ best_of_nodes-skipped gpu ns best best' (ground arith) none_found n j k
            ]
            | inr (false, f) ↦
                let b = closer c s input.resource_pntg m best in
                let e' : best_of_nodes c s sim input exclude gpu b ns ≡ some best' = ground arith in
                omega (
                  arith,
                  best_of_nodes-le gpu ns b best' e',
                  closer-lt input.resource_pntg m best (small m),
                )
          ]

      best_of_gpus-skipped :
          (gs : List ℕ) (best best' : ℕ × ℕ)
          → best_of_gpus c s sim input exclude best gs ≡ some best'
          → 200 ≤ best'.0
          → (n : ℕ) → ¬ IsCandidate gs n
      unfolding best_of_gpus
      best_of_gpus-skipped [] best best' e none_found n (g, i, same, j, k) = i
      best_of_gpus-skipped (h ∷ gs) best best' e none_found n (g, i, same, j, k) =
          elim (Bool-cases (str_eq (s.gpus h).type input.type)) [
            | inr other ↦ elim i [
              | inl at ↦
                  absurd (ground (arith, ap (λ (x : ℕ). str_eq (s.gpus x).type input.type) at))
              | inr later ↦
                  best_of_gpus-skipped gs best best' (ground arith) none_found n
                    (g, later, same, j, k)
            ]
            | inl fits ↦
                elim (Option-cases
                  (best_of_nodes c s sim input exclude (s.gpus h) best (s.gpus h).node_list)) [
                    | inl f ↦ absurd (ground arith)
                    | inr (best'', f) ↦
                        let e' : best_of_gpus c s sim input exclude best'' gs ≡ some best' =
                          ground arith in
                        let wide : 200 ≤ best''.0 =
                          omega (arith, best_of_gpus-le gs best'' best' e') in
                        elim i [
                          | inl at ↦
                              best_of_nodes-skipped (s.gpus h) (s.gpus h).node_list best best'' f
                                wide n (rw at j) (rw at k)
                          | inr later ↦
                              best_of_gpus-skipped gs best'' best' e' none_found n
                                (g, later, same, j, k)
                        ]
                  ]
          ]

    -- A candidate that is chosen, or none where there is none.
    abbrev pub IsFit : List ℕ → Option ℕ → Type 0
    IsFit gpus none = (n : ℕ) → ¬ IsCandidate gpus n
    IsFit gpus (some n) = IsCandidate gpus n

    -- If no node is larger than 100 percent, a `findBestFit` that ends finds a node exactly when there is
    -- one that the loop does not skip on a GPU of the input's type, and then it returns such a node.
    pub find_best_fit-IsFit :
        (r : Option ℕ)
        → ((n : ℕ) → (s.nodes n).resource_pntg ≤ 100)
        → find_best_fit c s sim input exclude ≡ some r
        → IsFit sim.gpu_list r
    unfolding find_best_fit
    find_best_fit-IsFit none small e = λ n k.
        elim (Option-cases (best_of_gpus c s sim input exclude (200, 0) sim.gpu_list)) [
          | inl f ↦ ground arith
          | inr (best, f) ↦
              best_of_gpus-skipped small sim.gpu_list (200, 0) best f (ground arith) n k
        ]
    find_best_fit-IsFit (some m) small e =
        elim (Option-cases (best_of_gpus c s sim input exclude (200, 0) sim.gpu_list)) [
          | inl f ↦ absurd (ground arith)
          | inr ((diff, ptr), f) ↦
              elim (best_of_gpus_sound (IsCandidate sim.gpu_list) sim.gpu_list (200, 0) (diff, ptr)
                (λ n k. k) f (inl refl)) [
                  | inl none_found ↦ absurd (ground arith)
                  | inr found ↦ let same : ptr ≡ m = ground arith in rw (← same) found
                ]
        ]
