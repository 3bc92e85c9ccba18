-- ===== src/Scheduler/Memory/Uncharged.antt =====
-- Memory that the allocation of a node does not charge.
use glet.Common.{ℕ, ◌≡◌, Bool, true, some, arith, any, any_of_mem, ◌==◌, ==-refl}
use glet.Float.{Float}
use glet.Scheduler.State.{Store, Config, success}
use glet.Scheduler.Memory.{is_part_loaded, is_model_loaded, has_model, add_gpu_mem_usage}
use glet.Scheduler.Nodes.{copy_to_node}

module _ {F : Type 0} where
  loaded_of_own_task :
      (s : Store F) (g m n : ℕ)
      → any (λ k. k == n) (s.gpus g).node_list ≡ true
      → is_part_loaded (s.gpus g) (s.nodes n) ≡ true
      → has_model s m (s.nodes n) ≡ true
      → is_model_loaded s (s.gpus g) (s.nodes n) m ≡ true
  unfolding is_model_loaded
  loaded_of_own_task s g m n listed part model = rw part (
      any_of_mem _ n (s.gpus g).node_list listed
        (rw (==-refl (s.nodes n).resource_pntg, ==-refl (s.nodes n).dedup_num) model))

  copied-has_model :
      (s : Store F) (org n m : ℕ) (repart : Bool)
      → has_model s m (s.nodes org) ≡ true
      → let s' = copy_to_node s org n repart in has_model s' m (s'.nodes n) ≡ true
  unfolding copy_to_node has_model
  copied-has_model s org n m repart h = ground arith

module _ {F : Type 0} ⦃R : Float F⦄ where
  add_loaded :
      (c : Config F) (s : Store F) (g m n : ℕ)
      → is_model_loaded s (s.gpus g) (s.nodes n) m ≡ true
      → add_gpu_mem_usage c s g m n ≡ some (success, s)
  unfolding add_gpu_mem_usage
  add_loaded c s g m n h = rw h

  -- `allocateFit` copies the estimated node before it charges the memory. If the GPU has that part on its
  -- list already, the call finds the task that was just copied, takes the model for loaded, and succeeds
  -- with the memory of the model charged to nobody, whether it fits or not.
  pub add-copy_to_node :
      (c : Config F) (s : Store F) (org g m n : ℕ) (repart : Bool)
      → has_model s m (s.nodes org) ≡ true
      → any (λ k. k == n) (s.gpus g).node_list ≡ true
      → let s' = copy_to_node s org n repart in
        is_part_loaded (s.gpus g) (s'.nodes n) ≡ true
        → add_gpu_mem_usage c s' g m n ≡ some (success, s')
  unfolding copy_to_node
  add-copy_to_node c s org g m n repart model listed part =
      let s' = copy_to_node s org n repart in
      add_loaded c s' g m n
        (loaded_of_own_task s' g m n listed part (copied-has_model s org n m repart model))
