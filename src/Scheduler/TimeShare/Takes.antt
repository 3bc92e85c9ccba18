-- ===== src/Scheduler/TimeShare/Takes.antt =====
-- What a round of `allocateTimeShare` does to the tasks of the nodes: the candidate has a task of the
-- model, and no node loses one.
use glet.Common.{
  ℕ, suc, ◌≤◌, ◌<◌, ◌≡◌, refl, sym, ◌∙◌, ap, inl, inr, Bool, true, false, List, [], ◌∷◌, ◌++◌,
  arith, In, any, any_last, length, ◌==◌, ==-refl, ==→eq, Bool-cases, if◌then◌else◌, get_elem?,
}
use mathlib.Core.List.{append-nil}
use glet.Common.Int.{ℤ, pos}
use glet.Common.Loops.{Ends, Ends-bind, Ends-imp, Ends-some, if_both}
use glet.Float.{Float}
use glet.Scheduler.State.{Task, Node, SimState, Store, Config, Exit}
use glet.Scheduler.Latency.{get_latency_in}
use glet.Scheduler.Nodes.{set_node, set_task, new_task, push_task}
use glet.Scheduler.Memory.{add_gpu_mem_usage, set_gpu, is_model_loaded, does_fit_mem_limit}
use glet.Scheduler.Estimate.{create_new_task}
use glet.Scheduler.TimeShare.{
  check_contain, gathered, rebatched, rebatched_at, rebatch, push_share, share,
}

any-append_left : (p : ℕ → Bool) (xs ys : List ℕ) → any p xs ≡ true → any p (xs ++ ys) ≡ true
unfolding any
any-append_left p [] ys h = cc
any-append_left p (x ∷ xs) ys h = ground (arith, any-append_left p xs ys)

module _ {F : Type 0} where
  -- The tasks of the model stay its tasks.
  abbrev pub KeepsModel : ℕ → Store F → Store F → Type 0
  KeepsModel m s s' = (k : ℕ) → (s.tasks k).id ≡ m → (s'.tasks k).id ≡ m

  -- So do the lists of tasks of all nodes.
  abbrev pub Keeps : ℕ → Store F → Store F → Type 0
  Keeps m s s' = KeepsModel m s s' × ((n : ℕ) → (s'.nodes n).task_list ≡ (s.nodes n).task_list)

  Keeps-trans : (m : ℕ) (s s' s'' : Store F) → Keeps m s s' → Keeps m s' s'' → Keeps m s s''
  Keeps-trans m s s' s'' (ids, lists) (ids', lists') =
      (λ k h. ids' k (ids k h), λ n. lists' n ∙ lists n)

  any-KeepsModel :
      (m : ℕ) (s s' : Store F) (ts : List ℕ)
      → KeepsModel m s s'
      → any (λ t. (s.tasks t).id == m) ts ≡ true
      → any (λ t. (s'.tasks t).id == m) ts ≡ true
  unfolding any
  any-KeepsModel m s s' [] ids h = h
  any-KeepsModel m s s' (t ∷ ts) ids h = ground (arith, ids t, any-KeepsModel m s s' ts ids)

  check_contain-Keeps :
      (m : ℕ) (s s' : Store F) (n : ℕ)
      → Keeps m s s'
      → check_contain s m (s.nodes n) ≡ true
      → check_contain s' m (s'.nodes n) ≡ true
  unfolding check_contain
  check_contain-Keeps m s s' n (ids, lists) h =
      rw (lists n) (any-KeepsModel m s s' (s.nodes n).task_list ids h)

  -- The candidates that do not have a task of the model.
  unfoldable pub without_model : Store F → ℕ → List ℕ → ℕ
  unfolding check_contain
  without_model s m [] = 0
  without_model s m (n ∷ ns) =
      let rest = without_model s m ns in if check_contain s m (s.nodes n) then rest else suc rest

  pub without_model-le_length :
      (s : Store F) (m : ℕ) (ns : List ℕ) → without_model s m ns ≤ length ns
  unfolding without_model
  without_model-le_length s m [] = omega arith
  without_model-le_length s m (n ∷ ns) = ground (arith, without_model-le_length s m ns)

  -- No node loses the model.
  abbrev pub Grows : ℕ → Store F → Store F → Type 0
  Grows m s s' =
      (n : ℕ) → check_contain s m (s.nodes n) ≡ true → check_contain s' m (s'.nodes n) ≡ true

  without_model-le :
      (m : ℕ) (s s' : Store F) (ns : List ℕ)
      → Grows m s s'
      → without_model s' m ns ≤ without_model s m ns
  unfolding without_model
  without_model-le m s s' [] more = omega arith
  without_model-le m s s' (n ∷ ns) more = ground (arith, more n, without_model-le m s s' ns more)

  pub without_model-lt :
      (m : ℕ) (s s' : Store F) (n : ℕ) (ns : List ℕ)
      → Grows m s s'
      → In n ns
      → check_contain s m (s.nodes n) ≡ false
      → check_contain s' m (s'.nodes n) ≡ true
      → without_model s' m ns < without_model s m ns
  unfolding without_model
  without_model-lt m s s' n [] more i old new = elim i [ ]
  without_model-lt m s s' n (x ∷ ns) more (inl e) old new =
      let old' : check_contain s m (s.nodes x) ≡ false = rw e old in
      let new' : check_contain s' m (s'.nodes x) ≡ true = rw e new in
      ground (arith, old', new', without_model-le m s s' ns more)
  without_model-lt m s s' n (x ∷ ns) more (inr i) old new =
      ground (arith, more x, without_model-lt m s s' n ns more i old new)

module _ {F : Type 0} ⦃R : Float F⦄ where
  add_gpu_mem_usage-Keeps :
      (c : Config F) (s : Store F) (g m n k : ℕ)
      → Ends (λ (r : Exit × Store F). Keeps k s r.1) (add_gpu_mem_usage c s g m n)
  unfolding add_gpu_mem_usage set_gpu
  add_gpu_mem_usage-Keeps c s g m n k =
      if_both (Ends (λ (r : Exit × Store F). Keeps k s r.1))
        (is_model_loaded s (s.gpus g) (s.nodes n) m) _ _ (λ j h. h, λ j. refl)
        (Ends-bind (λ (r : Exit × Store F). Keeps k s r.1)
          (does_fit_mem_limit c s (s.gpus g) m (s.nodes n)) _
          (λ fits _.
            if_both (λ (r : Exit × Store F). Keeps k s r.1) fits _ _ (λ j h. h, λ j. refl)
              (λ j h. h, λ j. refl)))

  rebatched_at-id :
      (m : ℕ) (duty : ℤ) (task : Task F)
      → Ends (λ task'. task'.id ≡ task.id) (rebatched_at m duty task)
  unfolding rebatched_at rebatched
  rebatched_at-id m duty task =
      if_both (Ends (λ (task' : Task F). task'.id ≡ task.id)) (task.id == m) _ _ refl (
        Ends-bind (λ (task' : Task F). task'.id ≡ task.id) (gathered F duty task.request_rate) _
          (λ batch _. refl))

  -- A task may be replaced by one of the same id.
  set_task-Keeps :
      (m : ℕ) (s : Store F) (t : ℕ) (task : Task F)
      → task.id ≡ (s.tasks t).id
      → Keeps m s (set_task s t task)
  unfolding set_task
  set_task-Keeps m s t task same = (
    λ k h. elim (Bool-cases (t == k)) [
      | inl e ↦ rw e (same ∙ ap (λ j. (s.tasks j).id) (==→eq t k e) ∙ h)
      | inr e ↦ rw e h
    ],
    λ n. refl,
  )

  -- A node may be replaced by one with the same tasks.
  set_node-Keeps :
      (m : ℕ) (s : Store F) (n : ℕ) (node : Node F)
      → node.task_list ≡ (s.nodes n).task_list
      → Keeps m s (set_node s n node)
  unfolding set_node
  set_node-Keeps m s n node same = (
    λ k h. h,
    λ k. elim (Bool-cases (n == k)) [
      | inl e ↦ rw e (same ∙ ap (λ j. (s.nodes j).task_list) (==→eq n k e))
      | inr e ↦ rw e
    ],
  )

  rebatch-Keeps :
      (c : Config F) (s : Store F) (sim : SimState) (m n : ℕ) (duty : ℤ) (occ : F) (ts : List ℕ)
      → Ends (λ r. Keeps m s r.1) (rebatch c s sim m n duty occ ts)
  unfolding rebatch
  rebatch-Keeps c s sim m n duty occ [] = (λ j h. h, λ j. refl)
  rebatch-Keeps c s sim m n duty occ (t ∷ ts) =
      Ends-bind (λ (r : F × Store F). Keeps m s r.1) (rebatched_at m duty (s.tasks t)) _
        (λ task e.
          Ends-bind (λ (r : F × Store F). Keeps m s r.1)
            (get_latency_in c (set_task s t task) ((set_task s t task).nodes n).type task.id
              task.batch_size ((set_task s t task).nodes n) sim)
            _
            (λ latency _.
              Ends-imp _ _ _
                (λ (r : F × Store F) kept.
                  Keeps-trans m s (set_task s t task) r.1
                    (set_task-Keeps m s t task (
                      Ends-some (λ (task' : Task F). task'.id ≡ (s.tasks t).id) _ task e
                        (rebatched_at-id m duty (s.tasks t))))
                    kept)
                (rebatch-Keeps c (set_task s t task) sim m n duty _ ts)))

  -- The new task of the model on the node.
  pushed : Store F → ℕ → ℕ → Task F → Store F
  pushed s n u task = push_task (new_task s task).1 n u

  pushed-KeepsModel :
      (m : ℕ) (s : Store F) (n : ℕ) (task : Task F)
      → task.id ≡ m
      → KeepsModel m s (pushed s n s.next task)
  unfolding pushed push_task new_task set_node set_task
  pushed-KeepsModel m s n task same k h = elim (Bool-cases (s.next == k)) [
    | inl e ↦ rw e same
    | inr e ↦ rw e h
  ]

  pushed_new :
      (m : ℕ) (s : Store F) (n : ℕ) (task : Task F)
      → task.id ≡ m
      → (((pushed s n s.next task).tasks s.next).id == m) ≡ true
  unfolding pushed push_task new_task set_node set_task
  pushed_new m s n task same = rw (==-refl s.next) (rw same (==-refl m))

  pushed-task_list :
      (s : Store F) (n : ℕ) (task : Task F) (k : ℕ)
      → ((pushed s n s.next task).nodes k).task_list
        ≡ (s.nodes k).task_list ++ (if n == k then s.next ∷ [] else [])
  unfolding pushed push_task new_task set_node set_task
  pushed-task_list s n task k = elim (Bool-cases (n == k)) [
    | inl e ↦ rw e (ap (λ j. (s.nodes j).task_list ++ s.next ∷ []) (==→eq n k e))
    | inr e ↦ rw e (sym (append-nil _))
  ]

  pushed-Grows :
      (m : ℕ) (s : Store F) (n : ℕ) (task : Task F)
      → task.id ≡ m
      → Grows m s (pushed s n s.next task)
  unfolding check_contain
  pushed-Grows m s n task same k h =
      let s' = pushed s n s.next task in
      rw (pushed-task_list s n task k) (
        any-append_left (λ t. (s'.tasks t).id == m) (s.nodes k).task_list _
          (any-KeepsModel m s s' (s.nodes k).task_list (pushed-KeepsModel m s n task same) h))

  pushed_contains :
      (m : ℕ) (s : Store F) (n : ℕ) (task : Task F)
      → task.id ≡ m
      → let s' = pushed s n s.next task in check_contain s' m (s'.nodes n) ≡ true
  unfolding check_contain
  pushed_contains m s n task same =
      let s' = pushed s n s.next task in
      rw (pushed-task_list s n task n) (
        rw (==-refl n) (
          any_last (λ t. (s'.tasks t).id == m) (s.nodes n).task_list s.next
            (pushed_new m s n task same)))

  -- What a round does with the candidate `n`.
  abbrev pub Takes : ℕ → Store F → ℕ → Store F → Type 0
  Takes m s n s' = KeepsModel m s s' × Grows m s s' × (check_contain s' m (s'.nodes n) ≡ true)

  Takes-Keeps :
      (m : ℕ) (s s' s'' : Store F) (n : ℕ) → Takes m s n s' → Keeps m s' s'' → Takes m s n s''
  Takes-Keeps m s s' s'' n (ids, more, new) kept = (
    λ k h. kept.0 k (ids k h),
    λ k h. check_contain-Keeps m s' s'' k kept (more k h),
    check_contain-Keeps m s' s'' n kept new,
  )

  push_share-Takes :
      (s : Store F) (t n batch : ℕ) (duty : ℤ)
      → Takes (s.tasks t).id s n (push_share s t n batch duty)
  unfolding push_share pushed push_task new_task create_new_task set_node
  push_share-Takes s t n batch duty =
      let task : Task F =
        create_new_task (s.tasks t).id (s.tasks t).request_rate (s.tasks t).slo batch
          (R.mul (R.of_int (pos batch)) (R.div (R.lit 1000 0) (R.of_int duty))) in
      let s1 = pushed s n s.next task in
      let m = (s.tasks t).id in
      Takes-Keeps m s s1 _ n
        (
          pushed-KeepsModel m s n task refl,
          pushed-Grows m s n task refl,
          pushed_contains m s n task refl,
        )
        (set_task-Keeps m s1 t _ refl)

  pub share-Takes :
      (c : Config F) (s : Store F) (sim : SimState) (t n batch : ℕ) (duty : ℤ)
      → Ends (Takes (s.tasks t).id s n) (share c s sim t n batch duty)
  unfolding share
  share-Takes c s sim t n batch duty =
      let m = (s.tasks t).id in
      let s1 = push_share s t n batch duty in
      Ends-bind (Takes m s n) (get_elem? sim.gpu_list (s1.nodes n).id) _ (λ g _.
        Ends-bind (Takes m s n) (add_gpu_mem_usage c s1 g m n) _ (λ (r : Exit × Store F) e.
          Ends-bind (Takes m s n) (rebatch c r.1 sim m n duty (R.lit 0 0) (r.1.nodes n).task_list) _
            (λ (x : F × Store F) e'.
              let node = record (x.1.nodes n) { duty_cycle = R.of_int duty; occupancy = x.0 } in
              let s4 = set_node x.1 n node in
              let kept : Keeps m s1 r.1 =
                Ends-some (λ (r : Exit × Store F). Keeps m s1 r.1) _ r e
                  (add_gpu_mem_usage-Keeps c s1 g m n m) in
              let kept' : Keeps m r.1 x.1 =
                Ends-some (λ (x : F × Store F). Keeps m r.1 x.1) _ x e'
                  (rebatch-Keeps c r.1 sim m n duty (R.lit 0 0) (r.1.nodes n).task_list) in
              Takes-Keeps m s s1 s4 n (push_share-Takes s t n batch duty) (
                Keeps-trans m s1 r.1 s4 kept
                  (Keeps-trans m r.1 x.1 s4 kept' (set_node-Keeps m x.1 n node refl))))))
