-- ===== src/Examples/Profiling.antt =====
-- Batches, parts, bandwidth and profiles in the small cluster.
use glet.Common.{
  ℕ, ◌≤◌, ◌<◌, ◌≡◌, ◌⊎◌, refl, true, none, some, List, [], ◌∷◌, arith, inr, All, In, IsDistinct,
  any,
}
use glet.Common.Int.{pos, ◌*ℤ◌, ◌-ℤ◌, ◌/ℤ◌, ◌+ℤ◌}
use glet.Float.Milli.{Milli, milli_float, Milli-IsWeakOrder}
use glet.Scheduler.State.{Store, success, failure}
use glet.Scheduler.Latency.{get_latency_in}
use glet.Scheduler.Adjust.{latency_sum, good_to_go, shrink_tasks, write_batches, adjust_res_node}
use glet.Scheduler.Adjust.Written.{IsShrunk}
use glet.Scheduler.Adjust.Shrink.{AllMeet, adjust_res_node-AllMeet}
use glet.Scheduler.Utils.{get_min_part_size}
use glet.Scheduler.Utils.Parts.{IsPartOf, get_min_part_size-IsLeast}
use glet.Scheduler.Estimate.{SatTrpEntry, get_max_return_part}
use glet.Scheduler.Estimate.ReturnPart.{get_max_return_part-In}
use glet.Scheduler.Network.{adjust_batch_size_to_net_bw}
use glet.Scheduler.Network.Shrunk.{IsAdjusted, adjust_batch_size_to_net_bw-IsAdjusted}
use glet.Scheduler.Profile.{
  Entry, LatencyModel, find_batch_pair, setup_table, model_alias, get_profiled_latency,
}
use glet.Scheduler.Profile.Pair.{IsLower, IsUpper, is_profiled, find_batch_pair-IsPair}
use glet.Scheduler.Profile.Keys.{Spares, setup_table-get_profiled_latency}
use glet.Examples.Cluster.{config, free_node, gpu, store, sim}

one_or_more : 1 ≤ 4
one_or_more = ground arith

above_one : 1 < 10
above_one = ground arith

below_32 : 10 < 32
below_32 = ground arith

up_to : 8 ≤ 10
up_to = ground arith

below_10 : 10 < 32
below_10 = ground arith

in_range : 40 < 1000
in_range = ground arith

below : is_profiled (1 ∷ 8 ∷ 16 ∷ 32 ∷ []) 8 ≡ true
unfolding any
below = refl

above : is_profiled (1 ∷ 8 ∷ 16 ∷ 32 ∷ []) 32 ≡ true
unfolding any
above = refl

-- Node 0 runs the task with a duty cycle of 60 milliseconds, too long for its SLO of 50.
abbrev slow : Store Milli
slow = record store { nodes = λ n. record free_node { task_list = 0 ∷ []; duty_cycle = pos 60000 } }

abbrev shrunk : Store Milli
shrunk = elim (adjust_res_node config slow 0 sim) [ none ↦ slow | some r ↦ r.1 ]

sum : latency_sum config slow (slow.nodes 0) sim (pos 0) (0 ∷ []) ≡ some (pos 10000)
unfolding latency_sum ◌*ℤ◌ ◌-ℤ◌ ◌/ℤ◌ ◌+ℤ◌
sum = refl

shrinks : adjust_res_node config slow 0 sim ≡ some (success, shrunk)
unfolding adjust_res_node latency_sum get_latency_in ◌*ℤ◌ ◌-ℤ◌ ◌/ℤ◌ ◌+ℤ◌ good_to_go shrink_tasks
    write_batches
shrinks = refl

one_task : IsDistinct (0 ∷ [])
unfolding IsDistinct
one_task = (λ i. i, tt)

adjust_res_node-AllMeet_example :
    ((success ≡ failure) × (shrunk ≡ slow))
    ⊎ ((success ≡ success) × (shrunk ≡ slow) × (good_to_go slow (slow.nodes 0) (pos 10000) ≡ true))
    ⊎ ((success ≡ success)
        × (b : ℕ) × (d : Milli) × (xs : List (ℕ × Milli)) × AllMeet config slow
            (slow.nodes 0)
            sim
            (pos 10000)
            (0 ∷ [])
            ((b, d) ∷ xs)
        × IsShrunk slow shrunk 0 (0 ∷ []) ((b, d) ∷ xs))
adjust_res_node-AllMeet_example =
    adjust_res_node-AllMeet Milli-IsWeakOrder config slow shrunk 0 sim (pos 10000) success one_task
      (one_or_more, tt) sum shrinks

get_min_part_size-IsLeast_example :
    (get_min_part_size store sim ≤ 100)
    × ((g n : ℕ)
        → In g (0 ∷ [])
        → In n (store.gpus g).node_list
        → get_min_part_size store sim ≤ (store.nodes n).resource_pntg)
    × ((get_min_part_size store sim ≡ 100) ⊎ IsPartOf store (0 ∷ []) (get_min_part_size store sim))
get_min_part_size-IsLeast_example = get_min_part_size-IsLeast store sim 0 [] refl

-- A saturated table with 80, 60, 40 and 20 percent, in thousandths of a request per second.
abbrev entry : ℕ → ℕ → SatTrpEntry Milli
entry part trp = record { type = "gpu"; part = part; sat_trp = pos trp; max_batch = 8 }

abbrev table : List (SatTrpEntry Milli)
table = entry 80 900000 ∷ entry 60 800000 ∷ entry 40 500000 ∷ entry 20 250000 ∷ []

chosen : get_max_return_part config table "gpu" ≡ some 60
unfolding get_max_return_part ◌*ℤ◌ ◌-ℤ◌ ◌/ℤ◌ ◌+ℤ◌
chosen = refl

get_max_return_part-In_example : In 60 (60 ∷ 40 ∷ 20 ∷ [])
get_max_return_part-In_example =
    get_max_return_part-In config table "gpu" 80 60 60 (40 ∷ 20 ∷ []) refl chosen

-- A model whose requests have 8 MB: 100 requests a second need more than the limit.
abbrev bytes : List (ℕ × ℕ)
bytes = (0, 8388608) ∷ []

abbrev narrowed : Store Milli
narrowed = elim (adjust_batch_size_to_net_bw store bytes 0 gpu) [ none ↦ store | some r ↦ r.1 ]

narrows : adjust_batch_size_to_net_bw store bytes 0 gpu ≡ some (success, narrowed)
unfolding adjust_batch_size_to_net_bw ◌*ℤ◌ ◌-ℤ◌ ◌/ℤ◌ ◌+ℤ◌
narrows = refl

adjust_batch_size_to_net_bw-IsAdjusted_example : IsAdjusted store bytes 0 gpu (success, narrowed)
adjust_batch_size_to_net_bw-IsAdjusted_example =
    adjust_batch_size_to_net_bw-IsAdjusted store bytes 0 gpu (success, narrowed) narrows

find_batch_pair-IsPair_example :
    (l u : ℕ) × (find_batch_pair (1 ∷ 8 ∷ 16 ∷ 32 ∷ []) 10 ≡ some (l, u))
    × IsLower (1 ∷ 8 ∷ 16 ∷ 32 ∷ []) 10 l
    × IsUpper (1 ∷ 8 ∷ 16 ∷ 32 ∷ []) 10 u
find_batch_pair-IsPair_example =
    find_batch_pair-IsPair (1 ∷ 8 ∷ 16 ∷ 32 ∷ []) 10 8 32 above_one below_32 up_to below below_10
      above

-- Two lines of a profile, of the same batch on two parts.
abbrev line : ℕ → ℕ → Entry Milli
line part latency = record { model = "vgg16"; part = part; batch = 32; latency = pos latency }

abbrev unread : LatencyModel Milli
unread = record { latency_table = []; batch_vec = [] }

abbrev lines : List (Entry Milli)
lines = line 40 9000 ∷ line 40 8000 ∷ line 20 16000 ∷ []

abbrev profile : LatencyModel Milli
profile = elim (setup_table unread lines) [ none ↦ unread | some m ↦ m ]

read : setup_table unread lines ≡ some profile
unfolding setup_table
read = refl

spares : All (Spares (line 40 8000)) (line 20 16000 ∷ [])
spares = ((ground arith, λ e. omega (arith, e.2)), tt)

own_name : model_alias "vgg16" ≡ "vgg16"
unfolding model_alias any
own_name = refl

setup_table-get_profiled_latency_example :
    (m : LatencyModel Milli) × (get_profiled_latency profile "vgg16" 32 40 ≡ some (pos 8000, m))
setup_table-get_profiled_latency_example =
    setup_table-get_profiled_latency unread profile (line 40 9000 ∷ []) (line 40 8000)
      (line 20 16000 ∷ []) "vgg16" in_range (inr refl) spares own_name read
