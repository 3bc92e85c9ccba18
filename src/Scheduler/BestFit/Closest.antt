-- ===== src/Scheduler/BestFit/Closest.antt =====
-- What `findBestFit` promises of the node that it returns.
use glet.Common.{
  ℕ, ◌-◌, ◌≤◌, ◌≡◌, refl, ◌⊎◌, inl, inr, true, false, ◌&&◌, ◌||◌, not, some, some-injective, ◌≢◌,
  List, [], ◌∷◌, arith, In, Bool-cases, Option-cases, str_eq, is_empty, any, ◌==◌, ltb,
  if◌then◌else◌,
}
use glet.Float.{Float}
use glet.Scheduler.State.{Node, Gpu, SimState, Store, Config}
use glet.Scheduler.Latency.{get_latency_in}
use glet.Scheduler.Memory.{does_fit_mem_limit}
use glet.Scheduler.Adjust.{only_task}
use glet.Scheduler.BestFit.{skips, closer, best_of_nodes, best_of_gpus, find_best_fit}
use glet.Scheduler.BestFit.Chosen.{
  IsCandidate, best_of_nodes-le, best_of_gpus-le, best_of_gpus_sound,
}

module _ {F : Type 0} ⦃R : Float F⦄ (c : Config F) (s : Store F) where
  -- How much larger than the input a node is; a whole GPU that may be cut counts as fitting exactly.
  abbrev pub gap : ℕ → ℕ → ℕ
  gap input_pntg n =
      if (s.nodes n).resource_pntg == 100 && c.use_part
      then 0
      else (s.nodes n).resource_pntg - input_pntg

  closer-gap : (input n : ℕ) (best : ℕ × ℕ) → (closer c s input n best).0 ≤ gap input n
  unfolding closer
  closer-gap input n (diff, ptr) = ground arith

  -- The difference that is kept is the gap of the node that is kept, or stands for none.
  abbrev IsExact : ℕ → ℕ × ℕ → Type 0
  IsExact input best = (best.0 ≡ 200) ⊎ (best.0 ≡ gap input best.1)

  closer-IsExact :
      (input n : ℕ) (best : ℕ × ℕ) → IsExact input best → IsExact input (closer c s input n best)
  unfolding closer
  closer-IsExact input n (diff, ptr) e = ground arith

  module _ (sim : SimState) (input : Node F) (exclude : List ℕ) where
    best_of_nodes-IsExact :
        (gpu : Gpu) (ns : List ℕ) (best best' : ℕ × ℕ)
        → best_of_nodes c s sim input exclude gpu best ns ≡ some best'
        → IsExact input.resource_pntg best
        → IsExact input.resource_pntg best'
    unfolding best_of_nodes
    best_of_nodes-IsExact gpu [] best best' e x = rw (← some-injective _ _ e) x
    best_of_nodes-IsExact gpu (n ∷ ns) best best' e x =
        elim (Option-cases (skips c s sim input exclude gpu n)) [
          | inl f ↦ absurd (ground arith)
          | inr (true, f) ↦ best_of_nodes-IsExact gpu ns best best' (ground arith) x
          | inr (false, f) ↦
              best_of_nodes-IsExact gpu ns (closer c s input.resource_pntg n best) best'
                (ground arith) (closer-IsExact input.resource_pntg n best x)
        ]

    best_of_nodes-gap :
        (gpu : Gpu) (ns : List ℕ) (best best' : ℕ × ℕ) (n : ℕ)
        → best_of_nodes c s sim input exclude gpu best ns ≡ some best'
        → In n ns
        → skips c s sim input exclude gpu n ≡ some false
        → best'.0 ≤ gap input.resource_pntg n
    unfolding best_of_nodes
    best_of_nodes-gap gpu [] best best' n e here k = elim here [ ]
    best_of_nodes-gap gpu (m ∷ ns) best best' n e (inl same) k =
        let b = closer c s input.resource_pntg m best in
        let f : skips c s sim input exclude gpu m ≡ some false = rw same k in
        let e' : best_of_nodes c s sim input exclude gpu b ns ≡ some best' = ground arith in
        let first : b.0 ≤ gap input.resource_pntg n =
          rw (← same) (closer-gap input.resource_pntg m best) in
        omega (arith, best_of_nodes-le c s sim input exclude gpu ns b best' e', first)
    best_of_nodes-gap gpu (m ∷ ns) best best' n e (inr i) k =
        elim (Option-cases (skips c s sim input exclude gpu m)) [
          | inl f ↦ absurd (ground arith)
          | inr (true, f) ↦ best_of_nodes-gap gpu ns best best' n (ground arith) i k
          | inr (false, f) ↦
              best_of_nodes-gap gpu ns (closer c s input.resource_pntg m best) best' n
                (ground arith) i k
        ]

    best_of_gpus-IsExact :
        (gs : List ℕ) (best best' : ℕ × ℕ)
        → best_of_gpus c s sim input exclude best gs ≡ some best'
        → IsExact input.resource_pntg best
        → IsExact input.resource_pntg best'
    unfolding best_of_gpus
    best_of_gpus-IsExact [] best best' e x = rw (← some-injective _ _ e) x
    best_of_gpus-IsExact (g ∷ gs) best best' e x =
        elim (Bool-cases (str_eq (s.gpus g).type input.type)) [
          | inr other ↦ best_of_gpus-IsExact gs best best' (ground arith) x
          | inl same ↦
              elim (Option-cases
                (best_of_nodes c s sim input exclude (s.gpus g) best (s.gpus g).node_list)) [
                  | inl f ↦ absurd (ground arith)
                  | inr (best'', f) ↦
                      best_of_gpus-IsExact gs best'' best' (ground arith)
                        (best_of_nodes-IsExact (s.gpus g) _ best best'' f x)
                ]
        ]

    best_of_gpus-gap :
        (gs : List ℕ) (best best' : ℕ × ℕ) (n : ℕ)
        → best_of_gpus c s sim input exclude best gs ≡ some best'
        → IsCandidate c s sim input exclude gs n
        → best'.0 ≤ gap input.resource_pntg n
    unfolding best_of_gpus
    best_of_gpus-gap [] best best' n e (g, i, same, j, k) = elim i [ ]
    best_of_gpus-gap (h ∷ gs) best best' n e (g, inl at, same, j, k) =
        let fits : str_eq (s.gpus h).type input.type ≡ true = rw at same in
        elim (Option-cases
          (best_of_nodes c s sim input exclude (s.gpus h) best (s.gpus h).node_list)) [
            | inl f ↦ absurd (ground arith)
            | inr (best'', f) ↦
                let e' : best_of_gpus c s sim input exclude best'' gs ≡ some best' = ground arith in
                omega (
                  arith,
                  best_of_gpus-le c s sim input exclude gs best'' best' e',
                  best_of_nodes-gap (s.gpus h) (s.gpus h).node_list best best'' n f (rw at j)
                      (rw at k),
                )
          ]
    best_of_gpus-gap (h ∷ gs) best best' n e (g, inr i, same, j, k) =
        elim (Bool-cases (str_eq (s.gpus h).type input.type)) [
          | inr other ↦ best_of_gpus-gap gs best best' n (ground arith) (g, i, same, j, k)
          | inl fits ↦
              elim (Option-cases
                (best_of_nodes c s sim input exclude (s.gpus h) best (s.gpus h).node_list)) [
                  | inl f ↦ absurd (ground arith)
                  | inr (best'', f) ↦
                      best_of_gpus-gap gs best'' best' n (ground arith) (g, i, same, j, k)
                ]
        ]

    -- No candidate is closer to the input than the node.
    abbrev pub IsClosest : List ℕ → ℕ → Type 0
    IsClosest gpus m =
        (n : ℕ)
        → IsCandidate c s sim input exclude gpus n
        → gap input.resource_pntg m ≤ gap input.resource_pntg n

    -- The node can take the input: it is free and not excluded, at least as large, and has room for the
    -- input's only task, which meets its SLO there.
    abbrev pub IsUsable : Gpu → ℕ → Type 0
    IsUsable gpu n =
        (input.resource_pntg ≤ (s.nodes n).resource_pntg)
        × (is_empty (s.nodes n).task_list ≡ true)
        × (any (λ m. m == n) exclude ≡ false)
        × (t : ℕ) × (l : F) × (only_task input ≡ some t)
        × (does_fit_mem_limit c s gpu (s.tasks t).id (s.nodes n) ≡ some true)
        × (get_latency_in c s input.type (s.tasks t).id (s.tasks t).batch_size (s.nodes n) sim
            ≡ some l)
        × (R.lt (R.of_int (s.tasks t).slo) (R.add l input.duty_cycle) ≡ false)

    skips-false :
        (gpu : Gpu) (n : ℕ) → skips c s sim input exclude gpu n ≡ some false → IsUsable gpu n
    unfolding skips
    skips-false gpu n e =
        elim (Bool-cases (
          ltb (s.nodes n).resource_pntg input.resource_pntg
          || not (is_empty (s.nodes n).task_list))) [
            | inl f ↦ absurd (ground arith)
            | inr f ↦ elim (Option-cases (only_task input)) [
              | inl g ↦ absurd (ground arith)
              | inr (t, g) ↦
                  elim (Option-cases (does_fit_mem_limit c s gpu (s.tasks t).id (s.nodes n))) [
                    | inl h ↦ absurd (ground arith)
                    | inr (fits, h) ↦
                        elim (Option-cases (
                          get_latency_in c s input.type (s.tasks t).id (s.tasks t).batch_size
                            (s.nodes n) sim)) [
                              | inl k ↦ absurd (ground arith)
                              | inr (l, k) ↦ (
                                ground arith,
                                ground arith,
                                ground arith,
                                t,
                                l,
                                g,
                                ground arith,
                                k,
                                ground arith,
                              )
                            ]
                  ]
            ]
          ]

    -- A node that `findBestFit` returns stands on a GPU of the decision that has the input's type. It is
    -- free, not excluded, at least as large as the input and has room for its only task, which meets its
    -- SLO there; and of all nodes that the loop does not skip none is closer to the input in size, where
    -- a whole GPU counts as an exact fit if it may be cut.
    pub find_best_fit-IsClosest :
        (m : ℕ)
        → find_best_fit c s sim input exclude ≡ some (some m)
        → IsClosest sim.gpu_list m
          × (g : ℕ) × In g sim.gpu_list
          × (str_eq (s.gpus g).type input.type ≡ true)
          × In m (s.gpus g).node_list
          × IsUsable (s.gpus g) m
    unfolding find_best_fit
    find_best_fit-IsClosest m e =
        elim (Option-cases (best_of_gpus c s sim input exclude (200, 0) sim.gpu_list)) [
          | inl f ↦ absurd (ground arith)
          | inr ((diff, ptr), f) ↦
              let same : ptr ≡ m = ground arith in
              let some_found : diff ≢ 200 = ground arith in
              let Q = IsCandidate c s sim input exclude sim.gpu_list in
              elim (best_of_gpus_sound c s sim input exclude Q sim.gpu_list (200, 0) (diff, ptr)
                (λ n k. k) f (inl refl)) [
                  | inl none_found ↦ absurd (some_found none_found)
                  | inr (g, i, fits, j, k) ↦
                      let exact : diff ≡ gap input.resource_pntg ptr = ground (
                        arith,
                        best_of_gpus-IsExact sim.gpu_list (200, 0) (diff, ptr) f (inl refl),
                      ) in
                      rw (← same) (
                        λ n candidate.
                            rw (← exact)
                              (best_of_gpus-gap sim.gpu_list (200, 0) (diff, ptr) n f candidate),
                        g,
                        i,
                        fits,
                        j,
                        skips-false (s.gpus g) ptr k,
                      )
                ]
        ]
