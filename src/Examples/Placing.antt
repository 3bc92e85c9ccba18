-- ===== src/Examples/Placing.antt =====
-- Choosing batches and nodes in the small cluster.
use glet.Common.{
  ℕ, ◌≤◌, ◌<◌, ◌≡◌, refl, true, false, some, [], ◌∷◌, arith, inl, inr, any, ◌==◌, ◌&&◌,
  if◌then◌else◌,
}
use glet.Common.Int.{pos, ◌*ℤ◌, ◌-ℤ◌, ◌/ℤ◌, ◌+ℤ◌}
use glet.Float.Milli.{Milli, milli_float}
use glet.Scheduler.State.{Node}
use glet.Scheduler.MaxBatch.{batch_latency, get_max_batch, meets_slo, small_rate}
use glet.Scheduler.MaxBatch.Search.{IsLast}
use glet.Scheduler.MaxBatch.Largest.{get_max_batch-IsLast}
use glet.Scheduler.BestFit.{find_best_fit, check_for_interference}
use glet.Scheduler.BestFit.Chosen.{IsCandidate, find_best_fit-IsFit}
use glet.Scheduler.BestFit.Closest.{IsClosest, IsUsable, find_best_fit-IsClosest}
use glet.Scheduler.BestFit.Neighbours.{check_for_interference_irrelevant}
use glet.Scheduler.Adjust.{only_task}
use glet.Scheduler.Memory.{does_fit_mem_limit}
use glet.Scheduler.Latency.{get_latency_in}
use glet.Scheduler.BestFit.{fit_one}
use glet.Scheduler.BestFit.Rounds.{unflagged, all_nodes, fit_one-ends}
use glet.Scheduler.Devices.{get_model_id}
use glet.Scheduler.Devices.ModelId.{get_model_id_unknown}
use glet.Common.{In, IsDistinct, str_eq, Bool-cases, List, Option, none}
use glet.Scheduler.Allocate.{place}
use glet.Scheduler.Allocate.Partition.{pntg_sum, place-pntg_sum}
use glet.Examples.Cluster.{config, task, free_node, estimate, store, sim}

small : (n : ℕ) → (store.nodes n).resource_pntg ≤ 100
small n = ground arith

found : find_best_fit config store sim estimate [] ≡ some (some 0)
unfolding find_best_fit only_task does_fit_mem_limit get_latency_in check_for_interference ◌*ℤ◌ ◌-ℤ◌
    ◌/ℤ◌ ◌+ℤ◌
found = refl

find_best_fit-IsFit_example : IsCandidate config store sim estimate [] (0 ∷ []) 0
find_best_fit-IsFit_example = find_best_fit-IsFit config store sim estimate [] (some 0) small found

find_best_fit-IsClosest_example :
    IsClosest config store sim estimate [] (0 ∷ []) 0
    × (g : ℕ) × In g (0 ∷ [])
    × (str_eq (store.gpus g).type estimate.type ≡ true)
    × In 0 (store.gpus g).node_list
    × IsUsable config store sim estimate [] (store.gpus g) 0
find_best_fit-IsClosest_example = find_best_fit-IsClosest config store sim estimate [] 0 found

-- A node of 50 percent, beside which the neighbour would be looked at.
abbrev half : Node Milli
half = record free_node { resource_pntg = 50 }

check_for_interference_irrelevant_example :
    check_for_interference config store "gpu" estimate half sim
    ≡ check_for_interference config store "gpu" free_node half sim
check_for_interference_irrelevant_example =
    check_for_interference_irrelevant config store "gpu" estimate free_node half sim

distinct : IsDistinct (0 ∷ [])
unfolding IsDistinct
distinct = (λ i. i, tt)

old : 0 < 2
old = ground arith

fresh : 1 < 2
fresh = ground arith

apart : ¬ (◌≡◌ {A = ℕ} 0 1)
apart e = omega arith

forty : 40 ≤ 100
forty = ground arith

place-pntg_sum_example :
    let s' = place config store 0 1 0 100 40 in pntg_sum s'.nodes (s'.gpus 0).node_list ≡ 100
unfolding pntg_sum
place-pntg_sum_example =
    place-pntg_sum config store 0 1 0 (inl refl) distinct (old, tt) fresh apart (inr (refl, forty))

profiled :
    (b : ℕ)
    → 1 ≤ b
    → b ≤ 32
    → batch_latency config store task free_node sim false b ≡ some (pos 10000)
unfolding batch_latency ◌*ℤ◌ ◌/ℤ◌ ◌+ℤ◌
profiled b h k = ground arith

get_max_batch-IsLast_example :
    (r : ℕ) × IsLast (λ b. meets_slo task (pos 100) true b (pos 10000)) r
    × (get_max_batch config store task free_node sim (pos 100) true false ≡ (
        if r == 0 && true
        then small_rate config store task free_node sim (pos 100)
        else some (r, pos 100)))
get_max_batch-IsLast_example =
    get_max_batch-IsLast config store task free_node sim (pos 100) false (λ b. pos 10000) profiled
      true

never_aborts :
    (fl : List ℕ) → (r : Option ℕ) × (find_best_fit config store sim estimate fl ≡ some r)
unfolding find_best_fit only_task does_fit_mem_limit get_latency_in check_for_interference ◌*ℤ◌ ◌-ℤ◌
    ◌/ℤ◌ ◌+ℤ◌
never_aborts fl = elim (Bool-cases (any (λ m. m == 0) fl)) [
  | inl flagged ↦ (none, ground arith)
  | inr fresh ↦ (some 0, ground arith)
]

enough : unflagged [] (all_nodes store (0 ∷ [])) < 2
unfolding unflagged all_nodes any
enough = ground arith

fit_one-ends_example :
    (r : Option (ℕ × List ℕ × List (ℕ × ℕ))) × (fit_one 2 config store sim estimate [] [] ≡ some r)
fit_one-ends_example = fit_one-ends config store sim estimate 2 [] [] never_aborts enough

listed_name : any (λ n. str_eq n "vgg16") ("bert" ∷ "vgg16" ∷ []) ≡ true
unfolding any
listed_name = refl

unlisted_name : any (λ n. str_eq n "lenet1") ("bert" ∷ "vgg16" ∷ []) ≡ false
unfolding any
unlisted_name = refl

get_model_id_unknown_example : get_model_id ("bert" ∷ "vgg16" ∷ []) "lenet1" ≡ some 1
get_model_id_unknown_example = get_model_id_unknown "bert" ("vgg16" ∷ []) "lenet1" unlisted_name
