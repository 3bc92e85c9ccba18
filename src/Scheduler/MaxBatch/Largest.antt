-- ===== src/Scheduler/MaxBatch/Largest.antt =====
-- The batch that `getMaxBatch` chooses.
use glet.Common.{ℕ, ◌≤◌, ◌≡◌, ◌&&◌, Bool, some, ◌==◌, if◌then◌else◌}
use glet.Common.Int.{ℤ}
use glet.Float.{Float}
use glet.Scheduler.State.{Task, Node, SimState, Store, Config}
use glet.Scheduler.MaxBatch.{batch_latency, meets_slo, fits, small_rate, get_max_batch}
use glet.Scheduler.MaxBatch.Search.{IsLast, search_from_start}

module _ {F : Type 0} ⦃R : Float F⦄ (c : Config F) (s : Store F) (task : Task F) (node : Node F)
    (sim : SimState) (req : ℤ) (interference : Bool) (latency : ℕ → F)
    (profiled : (b : ℕ)
      → 1 ≤ b
      → b ≤ 32
      → batch_latency c s task node sim interference b ≡ some (latency b)) where
  fits_lem :
      (is_residue : Bool) (b : ℕ)
      → 1 ≤ b
      → b ≤ 32
      → fits c s task node sim req is_residue interference b
        ≡ some (meets_slo task req is_residue b (latency b))
  unfolding fits
  fits_lem is_residue b h k = rw (profiled b h k)

  -- If the latency of every batch from 1 to 32 is known, `getMaxBatch` ends with a batch r. Either r is 0
  -- and batch 1 misses the SLO, or r is from 1 to 31, meets the SLO, and is 31 or is followed by a batch
  -- that misses it. The call returns r with the rate unchanged, but for a residue with r = 0, where it
  -- returns what the special case for small rates does.
  pub get_max_batch-IsLast :
      (is_residue : Bool)
      → (r : ℕ) × IsLast (λ b. meets_slo task req is_residue b (latency b)) r
        × (get_max_batch c s task node sim req is_residue interference
            ≡ (if r == 0 && is_residue then small_rate c s task node sim req else some (r, req)))
  unfolding get_max_batch
  get_max_batch-IsLast is_residue =
      let (r, e, l) =
        search_from_start (fits c s task node sim req is_residue interference)
          (λ b. meets_slo task req is_residue b (latency b)) (fits_lem is_residue) in
      (r, l, rw e)
