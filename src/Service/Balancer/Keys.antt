-- ===== src/Service/Balancer/Keys.antt =====
-- The keys of the load balancer stand for the placements they are made from.
use glet.Common.{ℕ, ◌↔◌, ◌+◌, ◌*◌, ◌≤◌, ◌≡◌, some, arith}
use glet.Service.Balancer.{get_key}

-- The ranges that the comment in `getKey` gives for the part, the GPU and the number.
abbrev pub IsPlacement : (gpu_id part dedup_num : ℕ) → Type 0
IsPlacement gpu_id part dedup_num = (gpu_id ≤ 20) × (part ≤ 100) × (dedup_num ≤ 5)

-- In the documented ranges, equal keys come from equal models, GPUs, parts and numbers.
pub get_key_injective :
    (model_id gpu_id part dedup_num model_id' gpu_id' part' dedup_num' key : ℕ)
    → IsPlacement gpu_id part dedup_num
    → IsPlacement gpu_id' part' dedup_num'
    → get_key model_id gpu_id part dedup_num ≡ some key
    → get_key model_id' gpu_id' part' dedup_num' ≡ some key
    → (model_id ≡ model_id') × (gpu_id ≡ gpu_id') × (part ≡ part') × (dedup_num ≡ dedup_num')
unfolding get_key
get_key_injective m g p d m' g' p' d' key (a, b, c) (a', b', c') e e' =
    let k : 10000000 * m + 1000 * p + 10 * g + 1 * d ≡ key = ground arith in
    let k' : 10000000 * m' + 1000 * p' + 10 * g' + 1 * d' ≡ key = ground arith in
    (omega arith, omega arith, omega arith, omega arith)

-- In the documented ranges of the GPU, the part and the number, there is a key exactly for the models up
-- to 214; for larger numbers of models the `int` overflows.
pub get_key_iff :
    (model_id gpu_id part dedup_num : ℕ)
    → IsPlacement gpu_id part dedup_num
    → ((key : ℕ) × (get_key model_id gpu_id part dedup_num ≡ some key)) ↔ (model_id ≤ 214)
unfolding get_key
get_key_iff m g p d (a, b, c) =
    (λ (key, e). ground arith, λ le. (10000000 * m + 1000 * p + 10 * g + 1 * d, ground arith))
