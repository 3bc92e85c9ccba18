-- ===== src/Service/Balancer/Credits.antt =====
-- Whom the weighted round robin accepts: first every proxy that holds the model, then those whose
-- credit is not above that of the proxy that was accepted last.
use glet.Common.{
  ℕ, ◌≡◌, ◌≢◌, refl, inl, inr, true, some, some-injective, List, [], ◌∷◌, arith, In, Option-cases,
  Bool-cases, lookup, insert, lookup_or, lookup-insert, nat_key, lookup-insert_self, ==→eq,
}
use glet.Float.{Float}
use glet.Scheduler.State.{SimState, Store}
use glet.Service.Balancer.{
  Balancer, get_key, renew_table, renew_tasks, renew_nodes, renew_gpus, update_wrr, clear_tables,
  check_key, check_min_credit,
}

module _ {F : Type 0} ⦃R : Float F⦄ where
  open R use {lit, add, le}

  check_key-answer :
      (b : Balancer F) (model_id key : ℕ) (curr : F)
      → lookup key b.curr_credit ≡ some curr
      → (check_key b model_id key).0 ≡ check_min_credit b model_id key
  unfolding check_key
  check_key-answer b m k curr e = elim (Bool-cases (check_min_credit b m k)) [
    | inl f ↦ ground arith
    | inr f ↦ ground arith
  ]

  check_key-accepted :
      (b b' : Balancer F) (model_id key : ℕ) (curr credit : F)
      → lookup key b.curr_credit ≡ some curr
      → lookup key b.credit ≡ some credit
      → check_key b model_id key ≡ (true, b')
      → (b'.curr_credit ≡ insert key (add curr credit) b.curr_credit)
        × (b'.min_credit ≡ insert model_id (add curr credit) b.min_credit)
  unfolding check_key lookup_or
  check_key-accepted b b' m k curr credit e f accepted =
      elim (Bool-cases (check_min_credit b m k)) [
        | inr g ↦ absurd (ground arith)
        | inl g ↦ (ground arith, ground arith)
      ]

  -- After `check_key` has accepted the key `a` for a model, the check of another key of the model that has
  -- credit accepts it exactly when its credit is not above the new credit of `a`.
  pub check_key-turns :
      (b b' : Balancer F) (model_id key_a key_b : ℕ) (curr_a curr_b credit_a : F)
      → key_a ≢ key_b
      → lookup key_a b.curr_credit ≡ some curr_a
      → lookup key_a b.credit ≡ some credit_a
      → lookup key_b b.curr_credit ≡ some curr_b
      → check_key b model_id key_a ≡ (true, b')
      → (check_key b' model_id key_b).0 ≡ le curr_b (add curr_a credit_a)
  unfolding check_min_credit lookup_or
  check_key-turns b b' m ka kb curr_a curr_b credit_a apart ea ec eb accepted =
      let (curr', min') = check_key-accepted b b' m ka curr_a credit_a ea ec accepted in
      let eb' : lookup kb b'.curr_credit ≡ some curr_b =
        ground
          (arith, lookup-insert ka kb (add curr_a credit_a) b.curr_credit, apart, ==→eq ka kb) in
      let em : lookup m b'.min_credit ≡ some (add curr_a credit_a) =
        ground (arith, lookup-insert_self m (add curr_a credit_a) b.min_credit) in
      ground (arith, check_key-answer b' m kb curr_b eb')

  module _ (s : Store F) (model_id key : ℕ) where
    -- The tables as they are right after the key was given to the model.
    abbrev IsFresh : Balancer F → Type 0
    IsFresh b =
        (lookup key b.curr_credit ≡ some (lit 0 0))
        × (lookup model_id b.min_credit ≡ some (lit 10 0))

    renew_table-IsFresh :
        (b : Balancer F) (m k : ℕ) (trpt : F) → IsFresh b → IsFresh (renew_table b m k trpt)
    unfolding renew_table
    renew_table-IsFresh b m k trpt (e, f) = (
      ground (arith, lookup-insert k key (lit 0 0) b.curr_credit),
      ground (arith, lookup-insert m model_id (lit 10 0) b.min_credit),
    )

    renew_table-makes : (b : Balancer F) (trpt : F) → IsFresh (renew_table b model_id key trpt)
    unfolding renew_table
    renew_table-makes b trpt = (
      ground (arith, lookup-insert key key (lit 0 0) b.curr_credit),
      ground (arith, lookup-insert model_id model_id (lit 10 0) b.min_credit),
    )

    renew_tasks-IsFresh :
        (b b' : Balancer F) (g p d : ℕ) (ts : List ℕ)
        → renew_tasks s b g p d ts ≡ some b'
        → IsFresh b
        → IsFresh b'
    unfolding renew_tasks
    renew_tasks-IsFresh b b' g p d [] e h = rw (← some-injective _ _ e) h
    renew_tasks-IsFresh b b' g p d (t ∷ ts) e h =
        elim (Option-cases (get_key (s.tasks t).id g p d)) [
          | inl f ↦ absurd (ground arith)
          | inr (k, f) ↦
              renew_tasks-IsFresh (renew_table b (s.tasks t).id k (s.tasks t).throughput) b' g p d
                ts (ground arith) (renew_table-IsFresh b (s.tasks t).id k (s.tasks t).throughput h)
        ]

    renew_nodes-IsFresh :
        (b b' : Balancer F) (g : ℕ) (ns : List ℕ)
        → renew_nodes s b g ns ≡ some b'
        → IsFresh b
        → IsFresh b'
    unfolding renew_nodes
    renew_nodes-IsFresh b b' g [] e h = rw (← some-injective _ _ e) h
    renew_nodes-IsFresh b b' g (n ∷ ns) e h =
        elim (Option-cases (
          renew_tasks s b g (s.nodes n).resource_pntg (s.nodes n).dedup_num
            (s.nodes n).task_list)) [
              | inl f ↦ absurd (ground arith)
              | inr (b'', f) ↦
                  renew_nodes-IsFresh b'' b' g ns (ground arith)
                    (renew_tasks-IsFresh b b'' g _ _ _ f h)
            ]

    renew_gpus-IsFresh :
        (b b' : Balancer F) (gs : List ℕ) → renew_gpus s b gs ≡ some b' → IsFresh b → IsFresh b'
    unfolding renew_gpus
    renew_gpus-IsFresh b b' [] e h = rw (← some-injective _ _ e) h
    renew_gpus-IsFresh b b' (g ∷ gs) e h =
        elim (Option-cases (renew_nodes s b (s.gpus g).gpu_id (s.gpus g).node_list)) [
          | inl f ↦ absurd (ground arith)
          | inr (b'', f) ↦
              renew_gpus-IsFresh b'' b' gs (ground arith) (renew_nodes-IsFresh b b'' _ _ f h)
        ]

    module _ (t : ℕ) (model : (s.tasks t).id ≡ model_id) where
      renew_tasks-makes :
          (b b' : Balancer F) (g p d : ℕ) (ts : List ℕ)
          → In t ts
          → get_key model_id g p d ≡ some key
          → renew_tasks s b g p d ts ≡ some b'
          → IsFresh b'
      unfolding renew_tasks
      renew_tasks-makes b b' g p d [] here k e = elim here [ ]
      renew_tasks-makes b b' g p d (u ∷ ts) (inl same) k e =
          let k' : get_key (s.tasks u).id g p d ≡ some key = rw (same, model) k in
          let trpt = (s.tasks u).throughput in
          renew_tasks-IsFresh (renew_table b (s.tasks u).id key trpt) b' g p d ts (ground arith)
            (rw (same, model) (renew_table-makes b trpt))
      renew_tasks-makes b b' g p d (u ∷ ts) (inr i) k e =
          elim (Option-cases (get_key (s.tasks u).id g p d)) [
            | inl f ↦ absurd (ground arith)
            | inr (k', f) ↦
                renew_tasks-makes (renew_table b (s.tasks u).id k' (s.tasks u).throughput) b' g p d
                  ts i k (ground arith)
          ]

      module _ (n : ℕ) (has_task : In t (s.nodes n).task_list) where
        renew_nodes-makes :
            (b b' : Balancer F) (g : ℕ) (ns : List ℕ)
            → In n ns
            → get_key model_id g (s.nodes n).resource_pntg (s.nodes n).dedup_num ≡ some key
            → renew_nodes s b g ns ≡ some b'
            → IsFresh b'
        unfolding renew_nodes
        renew_nodes-makes b b' g [] here k e = elim here [ ]
        renew_nodes-makes b b' g (m ∷ ns) here k e =
            elim (Option-cases (
              renew_tasks s b g (s.nodes m).resource_pntg (s.nodes m).dedup_num
                (s.nodes m).task_list)) [
                  | inl f ↦ absurd (ground arith)
                  | inr (b'', f) ↦ elim here [
                    | inl same ↦
                        let made : IsFresh b'' =
                          renew_tasks-makes b b'' g _ _ _ (rw same has_task) (rw same k) f in
                        renew_nodes-IsFresh b'' b' g ns (ground arith) made
                    | inr i ↦ renew_nodes-makes b'' b' g ns i k (ground arith)
                  ]
                ]

        renew_gpus-makes :
            (b b' : Balancer F) (g : ℕ) (gs : List ℕ)
            → In g gs
            → In n (s.gpus g).node_list
            → get_key model_id (s.gpus g).gpu_id (s.nodes n).resource_pntg (s.nodes n).dedup_num
              ≡ some key
            → renew_gpus s b gs ≡ some b'
            → IsFresh b'
        unfolding renew_gpus
        renew_gpus-makes b b' g [] here i k e = elim here [ ]
        renew_gpus-makes b b' g (h ∷ gs) here i k e =
            elim (Option-cases (renew_nodes s b (s.gpus h).gpu_id (s.gpus h).node_list)) [
              | inl f ↦ absurd (ground arith)
              | inr (b'', f) ↦ elim here [
                | inl same ↦
                    let made : IsFresh b'' =
                      renew_nodes-makes b b'' (s.gpus h).gpu_id _ (rw same i) (rw same k) f in
                    renew_gpus-IsFresh b'' b' gs (ground arith) made
                | inr j ↦ renew_gpus-makes b'' b' g gs j i k (ground arith)
              ]
            ]

  -- If `update_wrr` ends, then for every task of a node of a GPU of the decision whose key fits an `int`,
  -- the first check of that key is answered by the comparison of 0 with the initial minimum of 10.
  pub update_wrr-check_key :
      (s : Store F) (b b' : Balancer F) (sim : SimState) (g n t key : ℕ)
      → In g sim.gpu_list
      → In n (s.gpus g).node_list
      → In t (s.nodes n).task_list
      → get_key (s.tasks t).id (s.gpus g).gpu_id (s.nodes n).resource_pntg (s.nodes n).dedup_num
        ≡ some key
      → update_wrr s b sim ≡ some b'
      → (check_key b' (s.tasks t).id key).0 ≡ le (lit 0 0) (lit 10 0)
  unfolding update_wrr check_min_credit lookup_or
  update_wrr-check_key s b b' sim g n t key i j k e f =
      let (curr, min) =
        renew_gpus-makes s (s.tasks t).id key t refl n k (clear_tables b) b' g sim.gpu_list i j e
          f in
      ground (arith, check_key-answer b' (s.tasks t).id key (lit 0 0) curr)
