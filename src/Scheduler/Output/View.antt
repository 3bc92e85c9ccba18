-- ===== src/Scheduler/Output/View.antt =====
-- What a decision shows: its GPUs, their nodes, and the tasks of these; and stores that keep what is
-- behind the pointers in use.
use glet.Common.{
  ℕ, ◌≤◌, ◌<◌, ◌≡◌, refl, sym, ap, ◌∙◌, subst, inl, inr, List, [], ◌∷◌, String, arith, All,
  Bool-cases, ◌==◌, ==→eq,
}
use glet.Scheduler.State.{Task, Node, Gpu, Store}
use glet.Scheduler.Nodes.{new_task, new_node}
use glet.Scheduler.Memory.{set_gpu}
use glet.Scheduler.Devices.{new_gpu}
use glet.Scheduler.Output.{task_copy}

module _ {F : Type 0} where
  -- The tasks behind pointers, without the members that are not copied.
  abbrev pub tasks_view : Store F → List ℕ → List (Task F)
  tasks_view s [] = []
  tasks_view s (t ∷ ts) = task_copy (s.tasks t) ∷ tasks_view s ts

  -- The nodes behind pointers: their members, and their tasks.
  abbrev pub nodes_view : Store F → List ℕ → List (Node F × List (Task F))
  nodes_view s [] = []
  nodes_view s (n ∷ ns) =
      (record (s.nodes n) { task_list = [] }, tasks_view s (s.nodes n).task_list) ∷ nodes_view s ns

  -- The GPUs behind pointers, without their memory.
  abbrev pub gpus_view : Store F → List ℕ → List (ℕ × String × List (Node F × List (Task F)))
  gpus_view s [] = []
  gpus_view s (g ∷ gs) =
      ((s.gpus g).gpu_id, (s.gpus g).type, nodes_view s (s.gpus g).node_list) ∷ gpus_view s gs

  -- Pointers that are in use.
  abbrev pub AreTasks : Store F → List ℕ → Type 0
  AreTasks s ts = All (λ t. t < s.next) ts

  abbrev pub AreNodes : Store F → List ℕ → Type 0
  AreNodes s ns = All (λ n. (n < s.next) × AreTasks s (s.nodes n).task_list) ns

  abbrev pub AreGpus : Store F → List ℕ → Type 0
  AreGpus s gs = All (λ g. (g < s.next) × AreNodes s (s.gpus g).node_list) gs

  -- What is behind the pointers in use stays, but for the memory of GPUs.
  abbrev pub IsKept : Store F → Store F → ℕ → Type 0
  IsKept s s' k =
      (s'.tasks k ≡ s.tasks k)
      × (s'.nodes k ≡ s.nodes k)
      × ((s'.gpus k).gpu_id ≡ (s.gpus k).gpu_id)
      × ((s'.gpus k).type ≡ (s.gpus k).type)
      × (s'.gpus k).node_list ≡ (s.gpus k).node_list

  abbrev pub Extends : Store F → Store F → Type 0
  Extends s s' = (s.next ≤ s'.next) × ((k : ℕ) → k < s.next → IsKept s s' k)

  pub Extends-trans : (s s' s'' : Store F) → Extends s s' → Extends s' s'' → Extends s s''
  Extends-trans s s' s'' (le, h) (le', h') = (
    omega (arith, le, le'),
    λ k lt.
        let (a, b, c, d, e) = h k lt in
        let (a', b', c', d', e') = h' k (omega (arith, lt, le)) in
        (a' ∙ a, b' ∙ b, c' ∙ c, d' ∙ d, e' ∙ e),
  )

  pub tasks_view-Extends :
      (s s' : Store F)
      → Extends s s'
      → (ts : List ℕ) → AreTasks s ts
      → (tasks_view s' ts ≡ tasks_view s ts) × AreTasks s' ts
  tasks_view-Extends s s' e [] _ = (refl, tt)
  tasks_view-Extends s s' (le, h) (t ∷ ts) (lt, lts) =
      let (same, lts') = tasks_view-Extends s s' (le, h) ts lts in
      (rw ((h t lt).0, same) refl, (omega (arith, lt, le), lts'))

  pub nodes_view-Extends :
      (s s' : Store F)
      → Extends s s'
      → (ns : List ℕ) → AreNodes s ns
      → (nodes_view s' ns ≡ nodes_view s ns) × AreNodes s' ns
  nodes_view-Extends s s' e [] _ = (refl, tt)
  nodes_view-Extends s s' (le, h) (n ∷ ns) ((lt, ts), rest) =
      let (same, rest') = nodes_view-Extends s s' (le, h) ns rest in
      let (same_tasks, ts') = tasks_view-Extends s s' (le, h) (s.nodes n).task_list ts in
      let e = (h n lt).1 in
      (rw (e, same, same_tasks) refl, ((omega (arith, lt, le), rw e ts'), rest'))

  pub new_task-Extends : (s : Store F) (v : Task F) → Extends s (new_task s v).1
  unfolding new_task
  new_task-Extends s v = (omega arith, λ k lt. (ground arith, refl, refl, refl, refl))

  pub new_node-Extends : (s : Store F) (v : Node F) → Extends s (new_node s v).1
  unfolding new_node
  new_node-Extends s v = (omega arith, λ k lt. (refl, ground arith, refl, refl, refl))

  pub gpus_view-Extends :
      (s s' : Store F)
      → Extends s s'
      → (gs : List ℕ) → AreGpus s gs
      → (gpus_view s' gs ≡ gpus_view s gs) × AreGpus s' gs
  gpus_view-Extends s s' e [] _ = (refl, tt)
  gpus_view-Extends s s' (le, h) (g ∷ gs) ((lt, ns), rest) =
      let (same, rest') = gpus_view-Extends s s' (le, h) gs rest in
      let (same_nodes, ns') = nodes_view-Extends s s' (le, h) (s.gpus g).node_list ns in
      let (a, b, c, d, e) = h g lt in
      (
        rw (c, d, e, same, same_nodes) refl,
        ((omega (arith, lt, le), subst (λ l. AreNodes s' l) (sym e) ns'), rest'),
      )

  pub new_gpu-Extends : (s : Store F) (v : Gpu) → Extends s (new_gpu s v).1
  unfolding new_gpu
  new_gpu-Extends s v =
      (omega arith, λ k lt. (refl, refl, ground arith, ground arith, ground arith))

  -- A GPU may change its memory.
  pub set_gpu-Extends :
      (s s' : Store F)
      → Extends s s'
      → (g : ℕ) (v : Gpu) → v.gpu_id ≡ (s.gpus g).gpu_id
      → v.type ≡ (s.gpus g).type
      → v.node_list ≡ (s.gpus g).node_list
      → Extends s (set_gpu s' g v)
  unfolding set_gpu
  set_gpu-Extends s s' (le, h) g v c d e = (
    le,
    λ k lt. elim (Bool-cases (g == k)) [
      | inl q ↦
          let same : g ≡ k = ==→eq g k q in
          (
            (h k lt).0,
            (h k lt).1,
            rw q (c ∙ ap (λ j. (s.gpus j).gpu_id) same),
            rw q (d ∙ ap (λ j. (s.gpus j).type) same),
            rw q (e ∙ ap (λ j. (s.gpus j).node_list) same),
          )
      | inr q ↦ rw q (h k lt)
    ],
  )
