-- ===== src/Service/App/Output.antt =====
-- What batching and the distribution of outputs promise.
use glet.Common.{
  ℕ, ◌+◌, ◌≤◌, ◌≡◌, refl, ◌↔◌, inl, inr, true, none, some, some-injective, List, [], ◌∷◌, arith, In,
  Bool-cases, Option-cases, get_elem?, length, lookup, lookup-insert, lookup-insert_self, insert,
  nat_key, length-append, ltb, ap, ==→eq, ◌==◌, if◌then◌else◌,
}
use glet.Service.App.Instance.{make_input_tensor, mark_finished}
use glet.Service.App.Batch.{
  World, BatchedRequest, Torch, set_app, set_finished, set_output_tensor, joined, add_request_info,
  add_all, output_to, allocate_output,
}

get_elem?-of_length : {T : Type 0} → (xs : List T) → 1 ≤ length xs → ¬ (get_elem? xs 0 ≡ none)
get_elem?-of_length [] full e = omega arith
get_elem?-of_length (x ∷ xs) full e = ground arith

module _ {T : Type 0} where
  -- The model of request `r` is marked in the application of the request.
  abbrev pub IsMarked : World T → ℕ → Type 0
  IsMarked w r = lookup (w.requests r).cgid (w.apps (w.requests r).task).score_board ≡ some true

  set_output_tensor-requests :
      (w : World T) (r : ℕ) (x : T) → (set_output_tensor w r x).requests ≡ w.requests
  unfolding set_output_tensor set_finished set_app
  set_output_tensor-requests w r x = refl

  set_output_tensor-score_board :
      (w : World T) (r a : ℕ) (x : T)
      → let q = w.requests r in
        ((set_output_tensor w r x).apps a).score_board ≡ (
          if q.task == a
          then insert q.cgid true (w.apps q.task).score_board
          else (w.apps a).score_board)
  unfolding set_output_tensor set_finished set_app mark_finished make_input_tensor
  set_output_tensor-score_board w r a x = ground arith

  set_output_tensor-IsMarked : (w : World T) (r : ℕ) (x : T) → IsMarked (set_output_tensor w r x) r
  set_output_tensor-IsMarked w r x =
      let q = w.requests r in
      ground (
        arith,
        set_output_tensor-requests w r x,
        set_output_tensor-score_board w r q.task x,
        lookup-insert_self q.cgid true (w.apps q.task).score_board,
      )

  set_output_tensor-keeps :
      (w : World T) (r p : ℕ) (x : T) → IsMarked w p → IsMarked (set_output_tensor w r x) p
  set_output_tensor-keeps w r p x h =
      let q = w.requests r in
      let t = (w.requests p).task in
      ground (
        arith,
        h,
        set_output_tensor-requests w r x,
        set_output_tensor-score_board w r t x,
        ==→eq q.task t,
        ap (λ a. (w.apps a).score_board),
        lookup-insert q.cgid (w.requests p).cgid true (w.apps q.task).score_board,
      )

  module _ ⦃L : Torch T⦄ where
    output_to-keeps :
        (w w' : World T) (rs : List ℕ) (slices : List T) (q : ℕ)
        → output_to w rs slices ≡ some w'
        → IsMarked w q
        → IsMarked w' q
    unfolding output_to
    output_to-keeps w w' [] slices q e h = rw (← some-injective _ _ e) h
    output_to-keeps w w' (r ∷ rs) [] q e h = absurd (ground arith)
    output_to-keeps w w' (r ∷ rs) (x ∷ slices) q e h =
        output_to-keeps (set_output_tensor w r x) w' rs slices q e
          (set_output_tensor-keeps w r q x h)

    output_to-IsMarked :
        (w w' : World T) (rs : List ℕ) (slices : List T) (q : ℕ)
        → output_to w rs slices ≡ some w'
        → In q rs
        → IsMarked w' q
    unfolding output_to
    output_to-IsMarked w w' [] slices q e here = elim here [ ]
    output_to-IsMarked w w' (r ∷ rs) [] q e here = absurd (ground arith)
    output_to-IsMarked w w' (r ∷ rs) (x ∷ slices) q e (inl same) =
        output_to-keeps (set_output_tensor w r x) w' rs slices q e
          (rw (← same) (set_output_tensor-IsMarked w r x))
    output_to-IsMarked w w' (r ∷ rs) (x ∷ slices) q e (inr i) =
        output_to-IsMarked (set_output_tensor w r x) w' rs slices q e i

    -- After `allocate_output` has ended, every request of the batch has its model marked in its
    -- application, also where requests share an application.
    pub allocate_output-IsMarked :
        (w w' : World T) (b : BatchedRequest T) (tensor : T) (q : ℕ)
        → allocate_output w b tensor ≡ some w'
        → In q b.task_requests
        → IsMarked w' q
    unfolding allocate_output
    allocate_output-IsMarked w w' b tensor q e i =
        output_to-IsMarked w w' b.task_requests (L.split tensor) q e i

    output_to-ends :
        (w : World T) (rs : List ℕ) (slices : List T)
        → length rs ≤ length slices
        → (w' : World T) × (output_to w rs slices ≡ some w')
    unfolding output_to
    output_to-ends w [] slices h = (w, refl)
    output_to-ends w (r ∷ rs) [] h = absurd (omega arith)
    output_to-ends w (r ∷ rs) (x ∷ slices) h =
        output_to-ends (set_output_tensor w r x) rs slices (omega arith)

    -- A batch that a request has joined was not above its maximum, and has grown by one.
    abbrev IsJoin : BatchedRequest T → BatchedRequest T → Type 0
    IsJoin b b' =
        (length b.task_requests ≤ b.max_batch)
        × (length b'.task_requests ≡ length b.task_requests + 1)
        × (b'.max_batch ≡ b.max_batch)

    joined-length :
        (w : World T) (b : BatchedRequest T) (r : ℕ) (x : T)
        → length (joined w b r x).task_requests ≡ length b.task_requests + 1
    unfolding joined
    joined-length w b r x = length-append b.task_requests (r ∷ [])

    joined-max_batch :
        (w : World T) (b : BatchedRequest T) (r : ℕ) (x : T)
        → (joined w b r x).max_batch ≡ b.max_batch
    unfolding joined
    joined-max_batch w b r x = refl

    add_request_info-IsJoin :
        (w : World T) (b b' : BatchedRequest T) (r : ℕ)
        → add_request_info w b r ≡ some b'
        → IsJoin b b'
    unfolding add_request_info
    add_request_info-IsJoin w b b' r e =
        elim (Bool-cases (ltb b.max_batch (length b.task_requests))) [
          | inl f ↦ absurd (ground arith)
          | inr f ↦ elim (Option-cases (get_elem? (w.requests r).input_tensors 0)) [
            | inl g ↦ absurd (ground arith)
            | inr (x, g) ↦
                let made : joined w b r x ≡ b' = ground arith in
                rw (← made) (ground arith, joined-length w b r x, joined-max_batch w b r x)
          ]
        ]

    add_request_info-ends :
        (w : World T) (b : BatchedRequest T) (r : ℕ)
        → 1 ≤ length (w.requests r).input_tensors
        → length b.task_requests ≤ b.max_batch
        → (b' : BatchedRequest T) × (add_request_info w b r ≡ some b')
    unfolding add_request_info
    add_request_info-ends w b r full le =
        elim (Option-cases (get_elem? (w.requests r).input_tensors 0)) [
          | inl g ↦ absurd (get_elem?-of_length (w.requests r).input_tensors full g)
          | inr (x, g) ↦ (joined w b r x, ground arith)
        ]

    add_all-le :
        (w : World T) (b b' : BatchedRequest T) (r : ℕ) (rs : List ℕ)
        → add_all w b (r ∷ rs) ≡ some b'
        → length b.task_requests + length rs ≤ b.max_batch
    unfolding add_all
    add_all-le w b b' r [] e = elim (Option-cases (add_request_info w b r)) [
      | inl f ↦ absurd (ground arith)
      | inr (b1, f) ↦ omega (arith, (add_request_info-IsJoin w b b1 r f).0)
    ]
    add_all-le w b b' r (q ∷ qs) e = elim (Option-cases (add_request_info w b r)) [
      | inl f ↦ absurd (ground arith)
      | inr (b1, f) ↦
          let rest : add_all w b1 (q ∷ qs) ≡ some b' = ground arith in
          let (le, n, m) = add_request_info-IsJoin w b b1 r f in
          omega (arith, add_all-le w b1 b' q qs rest)
    ]

    add_all-ends :
        (w : World T) (b : BatchedRequest T) (r : ℕ) (rs : List ℕ)
        → ((q : ℕ) → 1 ≤ length (w.requests q).input_tensors)
        → length b.task_requests + length rs ≤ b.max_batch
        → (b' : BatchedRequest T) × (add_all w b (r ∷ rs) ≡ some b')
    unfolding add_all
    add_all-ends w b r [] full le =
        let (b1, e) = add_request_info-ends w b r (full r) (omega arith) in (b1, ground arith)
    add_all-ends w b r (q ∷ rs) full le =
        let (b1, e) = add_request_info-ends w b r (full r) (omega arith) in
        let (le', n, m) = add_request_info-IsJoin w b b1 r e in
        let (b2, e') = add_all-ends w b1 q rs full (omega arith) in (b2, ground arith)

    -- If every request has an input, the requests `r ∷ rs` join a batch without an exit exactly when the
    -- batch and `rs` together have at most as many requests as the maximum: one more than the maximum is
    -- let in.
    pub add_all_iff :
        (w : World T) (b : BatchedRequest T) (r : ℕ) (rs : List ℕ)
        → ((q : ℕ) → 1 ≤ length (w.requests q).input_tensors)
        → ((b' : BatchedRequest T) × (add_all w b (r ∷ rs) ≡ some b'))
          ↔ (length b.task_requests + length rs ≤ b.max_batch)
    add_all_iff w b r rs full = (λ (b', e). add_all-le w b b' r rs e, add_all-ends w b r rs full)
