-- ===== src/Scheduler/Utils/Parts.antt =====
-- Bounds that the questions about a decision answer with.
use glet.Common.{
  ℕ, ◌≤◌, ◌≡◌, ◌⊎◌, inl, inr, refl, ◌∙◌, List, [], ◌∷◌, arith, In, ap, Bool-cases, ltb,
  if◌then◌else◌,
}
use glet.Scheduler.State.{SimState, Store}
use glet.Scheduler.Utils.{min_of_nodes, min_of_gpus, get_min_part_size}

module _ {F : Type 0} (s : Store F) where
  min_of_nodes-le : (best : ℕ) (ns : List ℕ) → min_of_nodes s best ns ≤ best
  unfolding min_of_nodes
  min_of_nodes-le best [] = omega arith
  min_of_nodes-le best (n ∷ ns) =
      ground (arith, min_of_nodes-le best ns, min_of_nodes-le (s.nodes n).resource_pntg ns)

  min_of_nodes-In :
      (best : ℕ) (ns : List ℕ) (n : ℕ)
      → In n ns
      → min_of_nodes s best ns ≤ (s.nodes n).resource_pntg
  unfolding min_of_nodes
  min_of_nodes-In best [] n here = elim here [ ]
  min_of_nodes-In best (m ∷ ns) n (inl e) = ground (
    arith,
    min_of_nodes-le best ns,
    min_of_nodes-le (s.nodes m).resource_pntg ns,
    ap (λ x. (s.nodes x).resource_pntg) e,
  )
  min_of_nodes-In best (m ∷ ns) n (inr i) =
      ground (arith, min_of_nodes-In best ns n i, min_of_nodes-In (s.nodes m).resource_pntg ns n i)

  min_of_gpus-le : (best : ℕ) (gs : List ℕ) → min_of_gpus s best gs ≤ best
  unfolding min_of_gpus
  min_of_gpus-le best [] = omega arith
  min_of_gpus-le best (g ∷ gs) = omega (
    arith,
    min_of_gpus-le (min_of_nodes s best (s.gpus g).node_list) gs,
    min_of_nodes-le best (s.gpus g).node_list,
  )

  min_of_gpus-In :
      (best : ℕ) (gs : List ℕ) (g n : ℕ)
      → In g gs
      → In n (s.gpus g).node_list
      → min_of_gpus s best gs ≤ (s.nodes n).resource_pntg
  unfolding min_of_gpus
  min_of_gpus-In best [] g n here i = elim here [ ]
  min_of_gpus-In best (h ∷ gs) g n (inl e) i = omega (
    arith,
    min_of_gpus-le (min_of_nodes s best (s.gpus h).node_list) gs,
    min_of_nodes-In best (s.gpus h).node_list n (rw e i),
  )
  min_of_gpus-In best (h ∷ gs) g n (inr j) i =
      min_of_gpus-In (min_of_nodes s best (s.gpus h).node_list) gs g n j i

  -- The percentage of a node of a GPU of the list.
  abbrev pub IsPartOf : List ℕ → ℕ → Type 0
  IsPartOf gs part =
      (g : ℕ) × (n : ℕ) × In g gs × In n (s.gpus g).node_list × (part ≡ (s.nodes n).resource_pntg)

  min_of_nodes_attained :
      (best : ℕ) (ns : List ℕ)
      → (min_of_nodes s best ns ≡ best)
        ⊎ ((n : ℕ) × In n ns × (min_of_nodes s best ns ≡ (s.nodes n).resource_pntg))
  unfolding min_of_nodes
  min_of_nodes_attained best [] = inl refl
  min_of_nodes_attained best (n ∷ ns) =
      elim (min_of_nodes_attained
        (if ltb (s.nodes n).resource_pntg best then (s.nodes n).resource_pntg else best) ns) [
          | inr (m, i, e) ↦ inr (m, inr i, e)
          | inl e ↦ elim (Bool-cases (ltb (s.nodes n).resource_pntg best)) [
            | inl less ↦ inr (n, inl refl, e ∙ rw less refl)
            | inr kept ↦ inl (e ∙ rw kept refl)
          ]
        ]

  min_of_gpus_attained :
      (best : ℕ) (gs : List ℕ)
      → (min_of_gpus s best gs ≡ best) ⊎ IsPartOf gs (min_of_gpus s best gs)
  unfolding min_of_gpus
  min_of_gpus_attained best [] = inl refl
  min_of_gpus_attained best (g ∷ gs) =
      elim (min_of_gpus_attained (min_of_nodes s best (s.gpus g).node_list) gs) [
        | inr (h, n, i, j, e) ↦ inr (h, n, inr i, j, e)
        | inl e ↦ elim (min_of_nodes_attained best (s.gpus g).node_list) [
          | inr (n, j, f) ↦ inr (g, n, inl refl, j, e ∙ f)
          | inl f ↦ inl (e ∙ f)
        ]
      ]

  get_min_part_size_some :
      (input : SimState) (h : ℕ) (hs : List ℕ)
      → input.gpu_list ≡ h ∷ hs
      → get_min_part_size s input ≡ min_of_gpus s 100 input.gpu_list
  unfolding get_min_part_size
  get_min_part_size_some input h hs e = ground arith

  -- For a decision with a GPU, the smallest part size is at most 100 and at most the percentage of every
  -- node of a GPU of the decision, and it is 100 or the percentage of one of these nodes.
  pub get_min_part_size-IsLeast :
      (input : SimState) (h : ℕ) (hs : List ℕ)
      → input.gpu_list ≡ h ∷ hs
      → (get_min_part_size s input ≤ 100)
        × ((g n : ℕ)
            → In g input.gpu_list
            → In n (s.gpus g).node_list
            → get_min_part_size s input ≤ (s.nodes n).resource_pntg)
        × ((get_min_part_size s input ≡ 100) ⊎ IsPartOf input.gpu_list (get_min_part_size s input))
  get_min_part_size-IsLeast input h hs e = rw (get_min_part_size_some input h hs e) (
    min_of_gpus-le 100 input.gpu_list,
    min_of_gpus-In 100 input.gpu_list,
    min_of_gpus_attained 100 input.gpu_list,
  )
