-- ===== src/Scheduler/Residue/Memory.antt =====
-- What `mergeResidue` does to the memory that the scheduler believes to be in use.
use glet.Common.{
  ℕ, ltb, ◌-◌, ◌≤◌, ◌≡◌, refl, ap, ◌∙◌, inl, inr, true, not, Option, none, some, List, [], ◌∷◌,
  String, arith, ◌==◌, Bool-cases, if◌then◌else◌, lookup_or, nat_key, ==→eq,
}
use glet.Common.Int.{ℤ}
use glet.Common.Loops.{Ends, Ends-bind, Ends-imp, Ends-some, Ends-then, if_both}
use glet.Float.{Float}
use glet.Scheduler.State.{SimState, Store, Config, Exit, success, failure}
use glet.Scheduler.Latency.{get_latency_in}
use glet.Scheduler.MaxBatch.{get_max_batch}
use glet.Scheduler.Nodes.{set_node}
use glet.Scheduler.Memory.{
  does_fit_mem_limit, subtract_gpu_mem_usage, set_gpu, is_part_loaded, model_mem, is_model_loaded,
}
use glet.Scheduler.Estimate.{SatTrpEntry}
use glet.Scheduler.Residue.{
  Residues, is_residue, residues, merged_duty, with_duty, merged_at, reset_node, reset_nodes,
  reset_gpus, put_merged, merge_into_nodes, merge_into, made_whole, merge_gpu, merge_gpus,
  over_slack, skips_merge, merge_at, merge_residue,
}

module _ {F : Type 0} ⦃R : Float F⦄ where
  -- No GPU uses more memory than before.
  abbrev pub Lowers : Store F → Store F → Type 0
  Lowers s s' = (g : ℕ) → (s'.gpus g).used_memory ≤ (s.gpus g).used_memory

  Lowers-refl : (s : Store F) → Lowers s s
  Lowers-refl s g = omega arith

  Lowers-trans : (s s' s'' : Store F) → Lowers s s' → Lowers s' s'' → Lowers s s''
  Lowers-trans s s' s'' h k g = omega (arith, h g, k g)

  freed-Lowers :
      (c : Config F) (s : Store F) (g m : ℕ)
      → Lowers s
          (set_gpu s g (record (s.gpus g) { used_memory = (s.gpus g).used_memory - model_mem c m }))
  unfolding set_gpu
  freed-Lowers c s g m k = elim (Bool-cases (g == k)) [
    | inl e ↦ rw e (omega (arith, ap (λ j. (s.gpus j).used_memory) (==→eq g k e)))
    | inr e ↦ rw e (omega arith)
  ]

  subtract-Lowers :
      (c : Config F) (s : Store F) (g m n : ℕ)
      → Ends (λ r. Lowers s r.1) (subtract_gpu_mem_usage c s g m n)
  unfolding subtract_gpu_mem_usage set_gpu
  subtract-Lowers c s g m n =
      let Q = λ (r : Exit × Store F). Lowers s r.1 in
      Ends-then Q (is_part_loaded (s.gpus g) (s.nodes n)) _ (
        if_both Q (not (is_model_loaded s (s.gpus g) (s.nodes n) m)) _ _ (Lowers-refl s) (
          if_both Q (ltb (s.gpus g).used_memory (model_mem c m)) _ _ (Lowers-refl s)
            (freed-Lowers c s g m)))

  reset_node-Lowers :
      (c : Config F) (s : Store F) (m g n : ℕ) → Ends (Lowers s) (reset_node c s m g n)
  unfolding reset_node
  reset_node-Lowers c s m g n =
      Ends-bind (Lowers s) (subtract_gpu_mem_usage c s g m n) _ (λ (r : Exit × Store F) e.
        Ends-some (λ (r : Exit × Store F). Lowers s r.1) _ r e (subtract-Lowers c s g m n))

  reset_nodes-Lowers :
      (c : Config F) (s : Store F) (m g : ℕ) (ns : List ℕ)
      → Ends (Lowers s) (reset_nodes c s m g ns)
  unfolding reset_nodes
  reset_nodes-Lowers c s m g [] = Lowers-refl s
  reset_nodes-Lowers c s m g (n ∷ ns) =
      let first = if is_residue s m (s.nodes n) then reset_node c s m g n else some s in
      Ends-bind (Lowers s) first _ (λ s1 e.
        let once : Lowers s s1 = Ends-some (Lowers s) first s1 e (
          if_both (Ends (Lowers s)) (is_residue s m (s.nodes n)) _ _ (reset_node-Lowers c s m g n)
            (Lowers-refl s)) in
        Ends-imp (Lowers s1) (Lowers s) (reset_nodes c s1 m g ns)
          (λ s2 more. Lowers-trans s s1 s2 once more) (reset_nodes-Lowers c s1 m g ns))

  reset_gpus-Lowers :
      (c : Config F) (s : Store F) (m : ℕ) (gs : List ℕ) → Ends (Lowers s) (reset_gpus c s m gs)
  unfolding reset_gpus
  reset_gpus-Lowers c s m [] = Lowers-refl s
  reset_gpus-Lowers c s m (g ∷ gs) =
      Ends-bind (Lowers s) (reset_nodes c s m g (s.gpus g).node_list) _ (λ s1 e.
        let once = Ends-some (Lowers s) _ s1 e (reset_nodes-Lowers c s m g (s.gpus g).node_list) in
        Ends-imp (Lowers s1) (Lowers s) (reset_gpus c s1 m gs)
          (λ s2 more. Lowers-trans s s1 s2 once more) (reset_gpus-Lowers c s1 m gs))

  put_merged-Lowers :
      (c : Config F) (s : Store F) (sim : SimState) (t n batch : ℕ) (rate : ℤ)
      → Ends (Lowers s) (put_merged c s sim t n batch rate)
  unfolding put_merged merged_at with_duty
  put_merged-Lowers c s sim t n batch rate =
      let s1 = with_duty s n (merged_duty batch rate) in
      Ends-bind (Lowers s)
        (get_latency_in c s1 (s1.nodes n).type (s.tasks t).id batch (s1.nodes n) sim) _
        (λ l e. Lowers-refl s)

  -- What is found by the search for a node.
  abbrev Found : Store F → Option (Store F) × ℤ → Type 0
  Found s (none, rate) = Unit
  Found s (some s', rate) = Lowers s s'

  merge_into_nodes-Lowers :
      (c : Config F) (s : Store F) (sim : SimState) (t g : ℕ) (type : String) (part : ℕ) (rate : ℤ)
      (ns : List ℕ)
      → Ends (Found s) (merge_into_nodes c s sim t g type part rate ns)
  unfolding merge_into_nodes
  merge_into_nodes-Lowers c s sim t g type part rate [] = tt
  merge_into_nodes-Lowers c s sim t g type part rate (n ∷ ns) =
      let more = λ (left : ℤ). merge_into_nodes-Lowers c s sim t g type part left ns in
      Ends-bind (Found s) (does_fit_mem_limit c s (s.gpus g) (s.tasks t).id (s.nodes n)) _
        (λ fits _. if_both (Ends (Found s)) _ _ _ (more rate) (
          Ends-bind (Found s) (get_max_batch c s (s.tasks t) (s.nodes n) sim rate true true) _
            (λ (b : ℕ × ℤ) _. if_both (Ends (Found s)) (b.0 == 0) _ _ (more b.1) (
              Ends-bind (Found s) (put_merged c s sim t n b.0 b.1) _
                (λ s' e. Ends-some (Lowers s) _ s' e (put_merged-Lowers c s sim t n b.0 b.1))))))

  merge_into-Lowers :
      (c : Config F) (s : Store F) (sim : SimState) (t : ℕ) (type : String) (part : ℕ) (rate : ℤ)
      (gs : List ℕ)
      → Ends (Lowers s) (merge_into c s sim t type part rate gs)
  unfolding merge_into
  merge_into-Lowers c s sim t type part rate [] = Lowers-refl s
  merge_into-Lowers c s sim t type part rate (g ∷ gs) =
      Ends-bind (Lowers s) (merge_into_nodes c s sim t g type part rate (s.gpus g).node_list) _
        (λ (r : Option (Store F) × ℤ) e.
          by_found r
            (Ends-some (Found s) _ r e
              (merge_into_nodes-Lowers c s sim t g type part rate (s.gpus g).node_list))
            (merge_into-Lowers c s sim t type part r.1 gs))
    where
      by_found :
          (r : Option (Store F) × ℤ)
          → Found s r
          → Ends (Lowers s) (merge_into c s sim t type part r.1 gs)
          → Ends
              (Lowers s)
              (elim r.0 [ some s' ↦ some s' | none ↦ merge_into c s sim t type part r.1 gs ])
      by_found (none, rate') f more = more
      by_found (some s', rate') f more = f

  -- What holds of the store and of all that `made_whole` may leave holds after `mergeResidue` has looked at
  -- a GPU.
  merge_gpu_both :
      (P : Store F → Type 0) (c : Config F) (s : Store F) (g : ℕ)
      → P s
      → ((n : ℕ) → P (made_whole s g n))
      → P (merge_gpu c s g)
  unfolding merge_gpu
  merge_gpu_both P c s g same whole = by_list (s.gpus g).node_list refl
    where
      by_list : (l : List ℕ) → (s.gpus g).node_list ≡ l → P (merge_gpu c s g)
      by_list [] e = rw (e, merge_gpu) same
      by_list (n ∷ ns) e = rw (e, merge_gpu) (if_both P _ _ _ (whole n) same)

  made_whole-Lowers : (s : Store F) (g n : ℕ) → Lowers s (made_whole s g n)
  unfolding made_whole set_gpu set_node
  made_whole-Lowers s g n k = elim (Bool-cases (g == k)) [
    | inl e ↦ rw e (omega (arith, ap (λ j. (s.gpus j).used_memory) (==→eq g k e)))
    | inr e ↦ rw e (omega arith)
  ]

  -- The merge of the GPUs changes no task and charges no memory.
  merge_gpus-Lowers :
      (c : Config F) (s : Store F) (gs : List ℕ)
      → Lowers s (merge_gpus c s gs) × ((merge_gpus c s gs).tasks ≡ s.tasks)
  unfolding merge_gpus made_whole set_gpu set_node
  merge_gpus-Lowers c s [] = (Lowers-refl s, refl)
  merge_gpus-Lowers c s (g ∷ gs) =
      let s1 = merge_gpu c s g in
      let (once, kept) =
        merge_gpu_both (λ s'. Lowers s s' × (s'.tasks ≡ s.tasks)) c s g (Lowers-refl s, refl)
          (λ n. (made_whole-Lowers s g n, refl)) in
      let (more, kept') = merge_gpus-Lowers c s1 gs in
      (Lowers-trans s s1 (merge_gpus c s1 gs) once more, kept' ∙ kept)

  -- The outcome: no memory is charged, and success says that the rate of the task is down to the slack.
  abbrev pub IsMerged : Store F → ℕ → Exit × Store F → Type 0
  IsMerged s t (exit, s') =
      Lowers s s' × (exit ≡ (if over_slack (s'.tasks t) then failure else success))

  merge_at-IsMerged :
      (c : Config F) (s : Store F) (sim : SimState) (t : ℕ) (type : String) (part : ℕ) (rate : ℤ)
      → Ends (IsMerged s t) (merge_at c s sim t type part rate)
  unfolding merge_at
  merge_at-IsMerged c s sim t type part rate =
      let gs = sim.gpu_list in
      let m = (s.tasks t).id in
      Ends-bind (IsMerged s t) (reset_gpus c s m gs) _ (λ s1 e.
        Ends-bind (IsMerged s t) (merge_into c s1 sim t type part rate gs) _ (λ s2 e'.
          let reset = Ends-some (Lowers s) _ s1 e (reset_gpus-Lowers c s m gs) in
          let put =
            Ends-some (Lowers s1) _ s2 e' (merge_into-Lowers c s1 sim t type part rate gs) in
          let low = Lowers-trans s s1 s2 reset put in
          let (more, kept) = merge_gpus-Lowers c s2 gs in
          elim (Bool-cases (over_slack (s2.tasks t))) [
            | inl over ↦ rw over (low, rw over)
            | inr done ↦
                rw done (Lowers-trans s s2 (merge_gpus c s2 gs) low more, rw kept (rw done))
          ]))

  -- `mergeResidue`, where it does not abort, charges no memory to any GPU, also when it puts the task on
  -- a node that was free; and it succeeds exactly when no more than the slack is left of the task's rate.
  pub merge_residue-IsMerged :
      (c : Config F) (tables : List (ℕ × List (SatTrpEntry F))) (s : Store F) (sim : SimState)
      (t : ℕ)
      → Ends (IsMerged s t) (merge_residue c tables s sim t)
  unfolding merge_residue
  merge_residue-IsMerged c tables s sim t =
      let table = lookup_or [] (s.tasks t).id tables in
      Ends-bind (IsMerged s t)
        (residues s table (s.tasks t).id
          (record { count = 0; rate = (s.tasks t).request_rate; least = none }) sim.gpu_list)
        _
        (λ (r : Residues F) _.
          if_both (Ends (IsMerged s t)) (skips_merge r) _ _ (Lowers-refl s, refl)
            (by_least r.least r.rate))
    where
      by_least :
          (least : Option (F × String × ℕ)) (rate : ℤ)
          → Ends (IsMerged s t) (elim least [
            | none ↦ none
            | some (trp, type, part) ↦ merge_at c s sim t type part rate
          ])
      by_least none rate = tt
      by_least (some (trp, type, part)) rate = merge_at-IsMerged c s sim t type part rate
