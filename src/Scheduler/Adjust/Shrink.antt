-- ===== src/Scheduler/Adjust/Shrink.antt =====
-- What the loops of `adjustResNode` and `adjustSatNode` stop at.
use glet.Common.{
  ℕ, zero, suc, ◌≤◌, ◌≡◌, refl, Bool, true, false, Option, none, some, List, [], ◌∷◌, arith,
  Bool-cases, inl, inr, ◌⊎◌, Option-cases, IsDistinct,
}
use glet.Common.Int.{pos}
use glet.Float.{Float, IsWeakOrder}
use glet.Scheduler.State.{Node, SimState, Store, Config, failure, success, Exit}
use glet.Scheduler.Nodes.{set_node}
use glet.Scheduler.Latency.{get_latency_in}
use glet.Scheduler.Adjust.{
  shrink_res, shrink_sat, latency_sum, good_to_go, min_duty, write_batches, shrink_tasks,
  adjust_res_node,
}
use glet.Scheduler.Adjust.Written.{IsShrunk, write_batches-IsShrunk}

module _ {F : Type 0} ⦃R : Float F⦄ where
  open R use {of_int, lit, add, sub, mul, div, lt}

  -- A batch from 1 up to the old one, whose latency passes the test with which the loop ended.
  abbrev pub Meets : (ℕ → Option F) → ℕ → ℕ → (F → Bool) → Type 0
  Meets latency_of old b exceeds =
      (1 ≤ b) × (b ≤ old) × (l : F) × (latency_of b ≡ some l) × (exceeds l ≡ false)

  pub shrink_res-Meets :
      (latency_of : ℕ → Option F) (slo other : F) (batch_size old : ℕ) (latency duty : F) {b : ℕ}
      {d : F}
      → 1 ≤ old
      → latency_of old ≡ some latency
      → shrink_res latency_of slo other batch_size old latency duty ≡ some (some (b, d))
      → Meets latency_of old b (λ l. lt slo (add (add other l) d))
  unfolding shrink_res
  shrink_res-Meets latency_of slo other batch_size zero latency duty nonzero known e =
      elim nonzero [ ]
  shrink_res-Meets latency_of slo other batch_size (suc new) latency duty {b} {d} nonzero known e =
      elim (Bool-cases (lt slo (add (add other latency) duty))) [
        | inl late ↦ elim (Option-cases (latency_of new)) [
          | inl f ↦ absurd (ground arith)
          | inr (latency', f) ↦
              let duty' = mul duty (div (of_int (pos new)) (of_int (pos batch_size))) in
              let rest : shrink_res latency_of slo other batch_size new latency' duty'
                  ≡ some (some (b, d)) =
                ground arith in
              let (low, high, l, at, meets) =
                shrink_res-Meets latency_of slo other batch_size new latency' duty' (ground arith) f
                  rest in
              (low, omega arith, l, at, meets)
        ]
        | inr fine ↦ (ground arith, ground arith, latency, ground arith, ground arith)
      ]

  pub shrink_sat-Meets :
      (latency_of : ℕ → Option F) (slo : F) (old : ℕ) (latency duty : F) {b : ℕ} {d : F}
      → 1 ≤ old
      → latency_of old ≡ some latency
      → shrink_sat latency_of slo old latency duty ≡ some (some (b, d))
      → Meets latency_of old b (λ l. lt slo (mul (lit 2 0) l))
  unfolding shrink_sat
  shrink_sat-Meets latency_of slo zero latency duty nonzero known e = elim nonzero [ ]
  shrink_sat-Meets latency_of slo (suc new) latency duty {b} {d} nonzero known e =
      elim (Bool-cases (lt slo (mul (lit 2 0) latency))) [
        | inl late ↦ elim (Option-cases (latency_of new)) [
          | inl f ↦ absurd (ground arith)
          | inr (latency', f) ↦
              let rest : shrink_sat latency_of slo new latency' latency' ≡ some (some (b, d)) =
                ground arith in
              let (low, high, l, at, meets) =
                shrink_sat-Meets latency_of slo new latency' latency' (ground arith) f rest in
              (low, omega arith, l, at, meets)
        ]
        | inr fine ↦ (ground arith, ground arith, latency, ground arith, ground arith)
      ]

  -- The list of pairs found for the tasks of a node, one for each task, in order.
  abbrev pub AllMeet : Config F → Store F → Node F → SimState → F → List ℕ → List (ℕ × F) → Type 0
  AllMeet c s node sim sum [] [] = Unit
  AllMeet c s node sim sum [] (x ∷ xs) = ⊥
  AllMeet c s node sim sum (t ∷ ts) [] = ⊥
  AllMeet c s node sim sum (t ∷ ts) ((b, d) ∷ xs) =
      let latency_of = λ (b : ℕ). get_latency_in c s node.type (s.tasks t).id b node sim in
      ((old : F) × (latency_of (s.tasks t).batch_size ≡ some old)
        × Meets latency_of (s.tasks t).batch_size b
            (λ l. lt (of_int (s.tasks t).slo) (add (add (sub sum old) l) d)))
      × AllMeet c s node sim sum ts xs

  -- Every task of the list runs in batches of at least one.
  abbrev pub AllBatched : Store F → List ℕ → Type 0
  AllBatched s [] = Unit
  AllBatched s (t ∷ ts) = (1 ≤ (s.tasks t).batch_size) × AllBatched s ts

  shrink_tasks-AllMeet :
      (c : Config F) (s : Store F) (node : Node F) (sim : SimState) (sum : F) (ts : List ℕ)
      (xs : List (ℕ × F))
      → AllBatched s ts
      → shrink_tasks c s node sim sum ts ≡ some (some xs)
      → AllMeet c s node sim sum ts xs
  unfolding shrink_tasks
  shrink_tasks-AllMeet c s node sim sum [] [] a e = tt
  shrink_tasks-AllMeet c s node sim sum [] (x ∷ xs) a e = ground arith
  shrink_tasks-AllMeet c s node sim sum (t ∷ ts) [] a e = ground arith
  shrink_tasks-AllMeet c s node sim sum (t ∷ ts) ((b, d) ∷ xs) (batched, a) e =
      elim (Option-cases (latency_of (s.tasks t).batch_size)) [
        | inl f ↦ absurd (ground arith)
        | inr (old, f) ↦
            let found : shrink_res latency_of (of_int (s.tasks t).slo) (sub sum old)
                  (s.tasks t).batch_size (s.tasks t).batch_size old node.duty_cycle
                ≡ some (some (b, d)) =
              ground arith in
            (
              (
                old,
                f,
                shrink_res-Meets latency_of (of_int (s.tasks t).slo) (sub sum old)
                    (s.tasks t).batch_size (s.tasks t).batch_size old node.duty_cycle batched f
                    found,
              ),
              shrink_tasks-AllMeet c s node sim sum ts xs a (ground arith),
            )
      ]
    where
      latency_of : ℕ → Option F
      latency_of b = get_latency_in c s node.type (s.tasks t).id b node sim

  -- `adjustResNode` on a node with different tasks, whose batches are at least one, with a weak order of
  -- the duty cycles. A failure changes nothing. A success either changes nothing, and every task kept its
  -- SLO with five percent of slack; or there is for each task a batch from 1 up to its old one with a duty
  -- cycle, such that the latencies of the others, its new latency and that duty cycle do not exceed its
  -- SLO. The node's new duty cycle is then one of these that no other is below, each task has its batch
  -- and the throughput of that batch at the node's duty cycle, with nothing else of it changed, and no
  -- other task changes.
  pub adjust_res_node-AllMeet :
      (weak : IsWeakOrder F) (c : Config F) (s s' : Store F) (n : ℕ) (sim : SimState) (sum : F)
      (x : Exit)
      → IsDistinct (s.nodes n).task_list
      → AllBatched s (s.nodes n).task_list
      → latency_sum c s (s.nodes n) sim (lit 0 0) (s.nodes n).task_list ≡ some sum
      → adjust_res_node c s n sim ≡ some (x, s')
      → ((x ≡ failure) × (s' ≡ s))
        ⊎ ((x ≡ success) × (s' ≡ s) × (good_to_go s (s.nodes n) sum ≡ true))
        ⊎ ((x ≡ success)
            × (b : ℕ) × (d : F) × (xs : List (ℕ × F)) × AllMeet c s
                (s.nodes n)
                sim
                sum
                (s.nodes n).task_list
                ((b, d) ∷ xs)
            × IsShrunk s s' n (s.nodes n).task_list ((b, d) ∷ xs))
  unfolding adjust_res_node set_node
  adjust_res_node-AllMeet weak c s s' n sim sum x apart a known e =
      elim (Bool-cases (good_to_go s (s.nodes n) sum)) [
        | inl good ↦ inr (inl (ground arith))
        | inr bad ↦ shrunk (shrink_tasks c s (s.nodes n) sim sum (s.nodes n).task_list) refl bad
      ]
    where
      shrunk :
          (o : Option (Option (List (ℕ × F))))
          → shrink_tasks c s (s.nodes n) sim sum (s.nodes n).task_list ≡ o
          → good_to_go s (s.nodes n) sum ≡ false
          → ((x ≡ failure) × (s' ≡ s))
            ⊎ ((x ≡ success) × (s' ≡ s) × (good_to_go s (s.nodes n) sum ≡ true))
            ⊎ ((x ≡ success)
                × (b : ℕ) × (d : F) × (xs : List (ℕ × F)) × AllMeet c s
                    (s.nodes n)
                    sim
                    sum
                    (s.nodes n).task_list
                    ((b, d) ∷ xs)
                × IsShrunk s s' n (s.nodes n).task_list ((b, d) ∷ xs))
      shrunk none f bad = absurd (ground arith)
      shrunk (some none) f bad = inl (ground arith)
      shrunk (some (some [])) f bad = absurd (ground arith)
      shrunk (some (some ((b, d) ∷ xs))) f bad =
          elim (Option-cases (
            write_batches c s n sim (min_duty d xs) (lit 0 0) (s.nodes n).task_list
              ((b, d) ∷ xs))) [
                | inl w ↦ absurd (ground arith)
                | inr ((sum', t), w) ↦ inr (
                    inr (
                      ground arith,
                      b,
                      d,
                      xs,
                      shrink_tasks-AllMeet c s (s.nodes n) sim sum (s.nodes n).task_list
                          ((b, d) ∷ xs) a f,
                      write_batches-IsShrunk weak c s t s' n sim (lit 0 0) sum' d b
                          (s.nodes n).task_list xs apart w (ground arith) (ground arith),
                    ))
              ]
