-- ===== src/Scheduler/Allocate/Partition.antt =====
-- The gpu-lets of a GPU add up to the same percentage before and after `allocateFit` places a node.
use glet.Common.{
  ℕ, ◌+◌, ◌≤◌, ◌<◌, ◌≡◌, refl, sym, ◌⊎◌, inl, inr, Bool, true, false, List, [], ◌∷◌, ◌++◌, arith,
  Bool-cases, ◌==◌, update, All, In, ap, ==→eq, IsDistinct,
}
use glet.Float.{Float}
use glet.Scheduler.State.{Node, Store, Config}
use glet.Scheduler.Nodes.{set_node, copied, copy_to_node, new_node, push_node, make_empty_node}
use glet.Scheduler.Allocate.{rest_node, split_node, split_when, place}

-- A pointer that is not older than the next fresh one is not on the list.
All-out : (ns : List ℕ) (k : ℕ) → All (λ n. n < k) ns → ¬ In k ns
All-out [] k old i = i
All-out (n ∷ ns) k (o, old) (inl e) = ground (arith, e)
All-out (n ∷ ns) k (o, old) (inr i) = All-out ns k old i

In-append : (b : ℕ) (ns : List ℕ) (k : ℕ) → In b ns → In b (ns ++ k ∷ [])
In-append b (n ∷ ns) k (inl e) = inl e
In-append b (n ∷ ns) k (inr i) = inr (In-append b ns k i)
In-append b [] k here = elim here [ ]

In-append_cases : (b : ℕ) (ns : List ℕ) (k : ℕ) → In b (ns ++ k ∷ []) → In b ns ⊎ (k ≡ b)
In-append_cases b [] k (inl e) = inr e
In-append_cases b [] k (inr i) = elim i [ ]
In-append_cases b (n ∷ ns) k (inl e) = inl (inl e)
In-append_cases b (n ∷ ns) k (inr i) = elim (In-append_cases b ns k i) [
  | inl j ↦ inl (inr j)
  | inr e ↦ inr e
]

IsDistinct-append : (ns : List ℕ) (k : ℕ) → IsDistinct ns → ¬ In k ns → IsDistinct (ns ++ k ∷ [])
unfolding IsDistinct
IsDistinct-append [] k d out = (λ i. i, tt)
IsDistinct-append (n ∷ ns) k (first, d) out = (
  λ i. elim (In-append_cases n ns k i) [ inl j ↦ first j | inr e ↦ out (inl (sym e)) ],
  IsDistinct-append ns k d (λ i. out (inr i)),
)

of_All : (ns : List ℕ) (k b : ℕ) → All (λ n. n < k) ns → In b ns → b < k
of_All [] k b old i = elim i [ ]
of_All (n ∷ ns) k b (o, old) (inl e) = rw (← e) o
of_All (n ∷ ns) k b (o, old) (inr i) = of_All ns k b old i

module _ {F : Type 0} where
  -- The percentages of the listed nodes, added.
  unfoldable pub pntg_sum : (ℕ → Node F) → List ℕ → ℕ
  pntg_sum f [] = 0
  pntg_sum f (n ∷ ns) = (f n).resource_pntg + pntg_sum f ns

  pntg_sum-append :
      (s : Store F) (ns : List ℕ) (n : ℕ)
      → pntg_sum s.nodes (ns ++ n ∷ []) ≡ pntg_sum s.nodes ns + (s.nodes n).resource_pntg
  unfolding pntg_sum
  pntg_sum-append s [] n = ground arith
  pntg_sum-append s (m ∷ ns) n = ground (arith, pntg_sum-append s ns n)

  pntg_sum-set_other :
      (s : Store F) (ns : List ℕ) (b : ℕ) (node : Node F)
      → ¬ In b ns
      → pntg_sum (set_node s b node).nodes ns ≡ pntg_sum s.nodes ns
  unfolding pntg_sum set_node update
  pntg_sum-set_other s [] b node out = refl
  pntg_sum-set_other s (m ∷ ns) b node out =
      ground (arith, pntg_sum-set_other s ns b node (λ i. out (inr i)), out)

  pntg_sum-set_node :
      (s : Store F) (ns : List ℕ) (b : ℕ) (node : Node F)
      → In b ns
      → IsDistinct ns
      → pntg_sum (set_node s b node).nodes ns + (s.nodes b).resource_pntg
        ≡ pntg_sum s.nodes ns + node.resource_pntg
  unfolding pntg_sum set_node update IsDistinct
  pntg_sum-set_node s [] b node here d = elim here [ ]
  pntg_sum-set_node s (m ∷ ns) b node (inl e) (out, d) =
      let absent : ¬ In b ns = λ i. out (rw e i) in
      ground
        (arith, pntg_sum-set_other s ns b node absent, e, ap (λ x. (s.nodes x).resource_pntg) e)
  pntg_sum-set_node s (m ∷ ns) b node (inr i) (out, d) = elim (Bool-cases (b == m)) [
    | inl e ↦ absurd (out (rw (← ==→eq b m e) i))
    | inr e ↦ ground (arith, pntg_sum-set_node s ns b node i d)
  ]

  pntg_sum-copy_to_node :
      (s : Store F) (ns : List ℕ) (i b : ℕ) (repart : Bool)
      → In b ns
      → IsDistinct ns
      → (repart ≡ true → (s.nodes i).resource_pntg ≡ (s.nodes b).resource_pntg)
      → pntg_sum (copy_to_node s i b repart).nodes ns ≡ pntg_sum s.nodes ns
  unfolding copy_to_node copied
  pntg_sum-copy_to_node s ns i b false here d same =
      omega (arith, pntg_sum-set_node s ns b (copied (s.nodes i) (s.nodes b) false) here d)
  pntg_sum-copy_to_node s ns i b true here d same =
      omega
        (arith, pntg_sum-set_node s ns b (copied (s.nodes i) (s.nodes b) true) here d, same refl)

  module _ ⦃R : Float F⦄ where
    pntg_sum-split_node :
        (s : Store F) (g b p : ℕ)
        → In b (s.gpus g).node_list
        → IsDistinct (s.gpus g).node_list
        → All (λ n. n < s.next) (s.gpus g).node_list
        → (s.nodes b).resource_pntg ≡ 100
        → p ≤ 100
        → pntg_sum (split_node s g b p).nodes ((split_node s g b p).gpus g).node_list
          ≡ pntg_sum s.nodes (s.gpus g).node_list
    unfolding split_node new_node push_node set_node update rest_node make_empty_node
    pntg_sum-split_node s g b p here d old full le =
        let s1 = set_node s b (record (s.nodes b) { resource_pntg = p }) in
        let s2 = set_node s1 s.next (rest_node (s.nodes b) p) in
        let ns = (s.gpus g).node_list in
        ground (
          arith,
          pntg_sum-set_node s ns b (record (s.nodes b) { resource_pntg = p }) here d,
          pntg_sum-set_other s1 ns s.next (rest_node (s.nodes b) p) (All-out ns s.next old),
          pntg_sum-append s2 ns s.next,
        )

    split_node-node_list :
        (s : Store F) (g b p : ℕ)
        → ((split_node s g b p).gpus g).node_list ≡ (s.gpus g).node_list ++ s.next ∷ []
    unfolding split_node new_node push_node set_node update
    split_node-node_list s g b p = ground arith

    split_node-fits :
        (s : Store F) (g b i : ℕ)
        → i < s.next
        → b < s.next
        → ¬ (b ≡ i)
        → let s' = split_node s g b (s.nodes i).resource_pntg in
          (s'.nodes i).resource_pntg ≡ (s'.nodes b).resource_pntg
    unfolding split_node new_node push_node set_node update
    split_node-fits s g b i i_old b_old apart = ground arith

    pntg_sum-split_when :
        (due repart : Bool) (s : Store F) (g i b : ℕ)
        → In b (s.gpus g).node_list
        → IsDistinct (s.gpus g).node_list
        → All (λ n. n < s.next) (s.gpus g).node_list
        → i < s.next
        → ¬ (b ≡ i)
        → (due ≡ true → ((s.nodes b).resource_pntg ≡ 100) × ((s.nodes i).resource_pntg ≤ 100))
        → (due ≡ false → repart ≡ true → (s.nodes i).resource_pntg ≡ (s.nodes b).resource_pntg)
        → let s' = copy_to_node (split_when due s g b (s.nodes i).resource_pntg) i b repart in
          pntg_sum s'.nodes (s'.gpus g).node_list ≡ pntg_sum s.nodes (s.gpus g).node_list
    unfolding split_when copy_to_node
    pntg_sum-split_when false repart s g i b here d old i_old apart full same =
        pntg_sum-copy_to_node s (s.gpus g).node_list i b repart here d (same refl)
    pntg_sum-split_when true repart s g i b here d old i_old apart full same =
        let s1 = split_node s g b (s.nodes i).resource_pntg in
        let ns = (s.gpus g).node_list in
        let lists : (s1.gpus g).node_list ≡ ns ++ s.next ∷ [] =
          split_node-node_list s g b (s.nodes i).resource_pntg in
        let older : b < s.next = of_All ns s.next b old here in
        omega (
          arith,
          pntg_sum-copy_to_node s1 (s1.gpus g).node_list i b repart
              (rw lists (In-append b ns s.next here))
              (rw lists (IsDistinct-append ns s.next d (All-out ns s.next old)))
              (λ _. split_node-fits s g b i i_old older apart),
          pntg_sum-split_node s g b (s.nodes i).resource_pntg here d old (full refl).0
              (full refl).1,
        )

    -- If the best node stands once on its GPU, all pointers are older than the next fresh one, the node to
    -- be placed is another node, and it asks for the percentage of the best node or for at most the 100
    -- percent that the best node has, then placing it, with or without a split, leaves the sum of the
    -- percentages of the GPU's nodes what it was.
    pub place-pntg_sum :
        (c : Config F) (s : Store F) (g i b : ℕ)
        → In b (s.gpus g).node_list
        → IsDistinct (s.gpus g).node_list
        → All (λ n. n < s.next) (s.gpus g).node_list
        → i < s.next
        → ¬ (b ≡ i)
        → ((s.nodes i).resource_pntg ≡ (s.nodes b).resource_pntg)
          ⊎ (((s.nodes b).resource_pntg ≡ 100) × ((s.nodes i).resource_pntg ≤ 100))
        → let s' = place c s g i b (s.nodes b).resource_pntg (s.nodes i).resource_pntg in
          pntg_sum s'.nodes (s'.gpus g).node_list ≡ pntg_sum s.nodes (s.gpus g).node_list
    unfolding place
    place-pntg_sum c s g i b here d old i_old apart fit =
        pntg_sum-split_when _ c.use_repartition s g i b here d old i_old apart
          (λ due. ground (arith, fit)) (λ due repart. ground (arith, fit))
