-- ===== src/Scheduler/Memory/Accounting.antt =====
-- The memory that the scheduler believes to be in use.
use glet.Common.{
  ℕ, ◌+◌, ◌-◌, ◌≤◌, ◌≡◌, refl, sym, ap, ◌∙◌, true, false, some, arith, inl, inr, ◌⊎◌, leb,
  Bool-cases,
}
use glet.Common.Int.{pos, ◌-ℤ◌}
use glet.Float.{Float, IsRounded}
use glet.Scheduler.State.{Store, Config, Gpu, Node, Exit, success, failure}
use glet.Scheduler.Memory.{
  is_model_loaded, is_part_loaded, model_mem, additional_memory, set_gpu, has_room,
  does_fit_mem_limit, charge, add_gpu_mem_usage, subtract_gpu_mem_usage,
}

-- Every GPU uses at most the memory that it has.
abbrev pub IsWithin : {F : Type 0} → Store F → Type 0
IsWithin s = (g : ℕ) → (s.gpus g).used_memory ≤ (s.gpus g).total_memory

set_gpu-IsWithin :
    {F : Type 0} (s : Store F) (g : ℕ) (gpu : Gpu)
    → gpu.used_memory ≤ gpu.total_memory
    → IsWithin s
    → IsWithin (set_gpu s g gpu)
unfolding set_gpu
set_gpu-IsWithin s g gpu h w k = ground (arith, w k)

set_gpu_self : {F : Type 0} (s : Store F) (g : ℕ) (gpu : Gpu) → (set_gpu s g gpu).gpus g ≡ gpu
unfolding set_gpu
set_gpu_self s g gpu = ground arith

module _ {F : Type 0} ⦃R : Float F⦄ where
  charge-used :
      (c : Config F) (gpu : Gpu) (m : ℕ) (node : Node F)
      → (charge c gpu m node).used_memory
        ≡ gpu.used_memory + (model_mem c m + additional_memory gpu node)
  unfolding charge
  charge-used c gpu m node = refl

  charge-total :
      (c : Config F) (gpu : Gpu) (m : ℕ) (node : Node F)
      → (charge c gpu m node).total_memory ≡ gpu.total_memory
  unfolding charge
  charge-total c gpu m node = refl

  part_of_model :
      (s : Store F) (gpu : Gpu) (node : Node F) (m : ℕ)
      → is_model_loaded s gpu node m ≡ true
      → is_part_loaded gpu node ≡ true
  unfolding is_model_loaded
  part_of_model s gpu node m h = ground arith

  -- The three ways in which `addGPUMemUsage` ends.
  add_cases :
      (c : Config F) (s s' : Store F) (g m n : ℕ) (x : Exit)
      → add_gpu_mem_usage c s g m n ≡ some (x, s')
      → let gpu = s.gpus g in
        let node = s.nodes n in
        ((is_model_loaded s gpu node m ≡ true) × (x ≡ success) × (s' ≡ s))
        ⊎ ((is_model_loaded s gpu node m ≡ false)
            × (has_room F gpu.total_memory gpu.used_memory
                  (model_mem c m + additional_memory gpu node)
                ≡ true)
            × (x ≡ success)
            × (s' ≡ set_gpu s g (charge c gpu m node)))
        ⊎ ((is_model_loaded s gpu node m ≡ false) × (x ≡ failure) × (s' ≡ s))
  unfolding add_gpu_mem_usage does_fit_mem_limit
  add_cases c s s' g m n x e = ground arith

  -- A GPU that has room by `doesFitMemLimit` has room for what is needed.
  has_room-le :
      (rounded : IsRounded F) (total used need : ℕ)
      → total ≤ 16777216
      → used ≤ 16777216
      → has_room F total used need ≡ true
      → used + need ≤ total
  unfolding has_room ◌-ℤ◌
  has_room-le rounded total used need ht hu room =
      let left =
        rounded.sub_mono (R.mul (R.of_int (pos total)) (R.lit 9 1)) (R.of_int (pos total))
          (R.of_int (pos used)) (rounded.mul_ratio total) in
      let less : R.lt (R.of_int (pos need)) (R.of_int (pos total -ℤ pos used)) ≡ true =
        rw (← rounded.sub_exact total used ht hu) (rounded.lt_of_lt_le _ _ _ room left) in
      elim (Bool-cases (leb (used + need) total)) [
        | inl fits ↦ ground arith
        | inr over ↦ absurd (
            ground
              (arith, less, rounded.of_int_mono (pos total -ℤ pos used) (pos need) (ground arith)))
      ]

  -- If arithmetic rounds as `IsRounded` says and the GPU has at most 2^24 units of memory, then GPUs that
  -- use at most the memory that they have still do so after `addGPUMemUsage`, where it does not abort.
  pub add_gpu_mem_usage-IsWithin :
      (c : Config F) (s s' : Store F) (g m n : ℕ) (x : Exit)
      → IsRounded F
      → (s.gpus g).total_memory ≤ 16777216
      → IsWithin s
      → add_gpu_mem_usage c s g m n ≡ some (x, s')
      → IsWithin s'
  add_gpu_mem_usage-IsWithin c s s' g m n x rounded small w e = elim (add_cases c s s' g m n x e) [
    | inl (loaded, done, same) ↦ rw same w
    | inr (inl (out, room, done, new)) ↦
        let gpu = s.gpus g in
        let node = s.nodes n in
        let fits =
          has_room-le rounded gpu.total_memory gpu.used_memory
            (model_mem c m + additional_memory gpu node) small (omega (arith, w g)) room in
        rw new (
          set_gpu-IsWithin s g (charge c gpu m node)
            (rw (charge-used c gpu m node, charge-total c gpu m node) fits) w)
    | inr (inr (out, failed, same)) ↦ rw same w
  ]

  subtract-charge :
      (c : Config F) (t : Store F) (g m n : ℕ) (gpu : Gpu)
      → t.gpus g ≡ charge c gpu m (t.nodes n)
      → is_model_loaded t (t.gpus g) (t.nodes n) m ≡ true
      → (u : Store F) × (subtract_gpu_mem_usage c t g m n ≡ some (success, u))
        × ((u.gpus g).used_memory ≡ gpu.used_memory + additional_memory gpu (t.nodes n))
        × (is_part_loaded (u.gpus g) (t.nodes n) ≡ true)
  unfolding subtract_gpu_mem_usage charge set_gpu is_part_loaded
  subtract-charge c t g m n gpu e loaded =
      let part = part_of_model t (t.gpus g) (t.nodes n) m loaded in
      (
        set_gpu t g (record (t.gpus g) { used_memory = (t.gpus g).used_memory - model_mem c m }),
        ground arith,
        ground arith,
        ground arith,
      )

  -- What `subtractGPUMemUsage` takes back from a GPU that was charged for a model is the model's memory
  -- alone: the memory of a new gpu-let stays in use, and the part stays on the GPU's list.
  pub subtract-add :
      (c : Config F) (s s' t : Store F) (g m n : ℕ)
      → is_model_loaded s (s.gpus g) (s.nodes n) m ≡ false
      → add_gpu_mem_usage c s g m n ≡ some (success, s')
      → t.gpus g ≡ s'.gpus g
      → t.nodes n ≡ s.nodes n
      → is_model_loaded t (t.gpus g) (t.nodes n) m ≡ true
      → (u : Store F) × (subtract_gpu_mem_usage c t g m n ≡ some (success, u))
        × ((u.gpus g).used_memory
            ≡ (s.gpus g).used_memory + additional_memory (s.gpus g) (s.nodes n))
        × (is_part_loaded (u.gpus g) (s.nodes n) ≡ true)
  subtract-add c s s' t g m n fresh e same_gpu same_node loaded =
      elim (add_cases c s s' g m n success e) [
        | inl (old, done, same) ↦ cc
        | inr (inl (out, room, done, new)) ↦ rw (← same_node) (
            subtract-charge c t g m n (s.gpus g)
              (same_gpu
                ∙ ap (λ (u : Store F). u.gpus g) new
                ∙ set_gpu_self s g _
                ∙ ap (charge c (s.gpus g) m) (sym same_node))
              loaded)
        | inr (inr (out, failed, same)) ↦ cc
      ]
