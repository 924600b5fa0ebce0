-- ===== src/Pool/Submit/Nodes.antt =====
-- The nodes of a batch in src/os_transport_thread_pool.c: create_batch_node and build_batch_nodes.
use os_transport.Base.{
  fun_ext, ap, ℕ, ◌+◌, ◌*◌, ◌%◌, ◌^◌, ◌≡◌, sym, refl, Option, none, some, inl, inr, List, [], ◌∷◌,
  ◌++◌, append-nil, append_assoc, length, length-append, Bool-cases, arith,
}
use os_transport.Memory.{Memory, free, Holds, Asked}
use os_transport.Pool.{InternalTask, ThreadPoolTask, TaskCompleteCb, QueuedTask, ThreadPool}
use os_transport.Pool.Worker.{internal_task_wrapper}
use os_transport.Pool.Contract.{run_wrapped, ids_from, wrapper}
use os_transport.Pool.Worker.Laws.{call_back-told}
use os_transport.Pool.Submit.{wrap_task, create_batch_node, build_batch_nodes, generate_task_id}

module _ {A S : Type 0} where
  -- `p'` is `p` with other task ids to come.
  abbrev pub SameButIds : ThreadPool A S → ThreadPool A S → Type 0
  SameButIds p p' = (n : ℕ) × (p' ≡ record p { next_task_id = n })

  SameButIds-trans : (p q r : ThreadPool A S) → SameButIds p q → SameButIds q r → SameButIds p r
  SameButIds-trans p q r (n, e) (k, f) = (k, rw (f, e))

  module _ (req_id : ℕ) (cb : Option (TaskCompleteCb A S)) (user_data : Option A) where
    -- The tasks that a batch should queue: a wrapper for each, in order, with ids that count up.
    unfoldable pub wrap_all : ℕ → List (ThreadPoolTask A S) → List (QueuedTask A S)
    wrap_all id [] = []
    wrap_all id (t ∷ ts) = wrapper id req_id cb user_data t ∷ wrap_all ((id + 1) % 2 ^ 64) ts

    internal_task_wrapper_lem :
        (t : InternalTask A S) (w : S × Memory) → internal_task_wrapper t w ≡ run_wrapped t w
    unfolding internal_task_wrapper
    internal_task_wrapper_lem t (s, m) =
        let (ret, s') = t.user_func t.user_arg s in
        rw (call_back-told t.complete_cb t.task_id t.success t.user_data s') refl

    wrap_task_lem :
        (id : ℕ) (t : ThreadPoolTask A S)
        → wrap_task id req_id t.task_func t.task_arg cb user_data ≡ wrapper id req_id cb user_data t
    unfolding wrap_task
    wrap_task_lem id t =
        ap (λ f. record (wrapper id req_id cb user_data t) { task_func = f })
          (fun_ext (λ i. fun_ext (internal_task_wrapper_lem i)))

    abbrev pub Creates :
        ThreadPool A S
        → ThreadPoolTask A S
        → Memory
        → Option (QueuedTask A S) × ThreadPool A S × Memory
        → Type 0
    Creates p t m (none, p', m') = SameButIds p p' × Holds 0 m m'
    Creates p t m (some node, p', m') =
        (node ≡ wrapper p.next_task_id req_id cb user_data t)
        × (p' ≡ record p { next_task_id = (p.next_task_id + 1) % 2 ^ 64 })
        × Asked 3 3 m m'

    pub create_batch_node-Creates :
        (p : ThreadPool A S) (t : ThreadPoolTask A S) (m : Memory)
        → Creates p t m (create_batch_node p t req_id cb user_data m)
    unfolding create_batch_node generate_task_id
    create_batch_node-Creates p t m = elim (Bool-cases (m.grants m.requests)) [
      | inr no1 ↦ rw no1 ((p.next_task_id, refl), omega arith)
      | inl got1 ↦ elim (Bool-cases (m.grants (m.requests + 1))) [
        | inr no2 ↦ rw (got1, no2) ((p.next_task_id, refl), omega arith)
        | inl got2 ↦ elim (Bool-cases (m.grants (m.requests + 1 + 1))) [
          | inr no3 ↦ rw (got1, got2, no3) ((_, refl), omega arith)
          | inl got3 ↦
              rw (got1, got2, got3)
                (wrap_task_lem p.next_task_id t, refl, (refl, omega arith, omega arith))
        ]
      ]
    ]

    -- The result of the loop with the nodes and the ids so far. On a failure the nodes are freed.
    abbrev pub Builds :
        ThreadPool A S
        → List (ThreadPoolTask A S)
        → List (QueuedTask A S)
        → List ℕ
        → Memory
        → Option (List (QueuedTask A S) × List ℕ) × ThreadPool A S × Memory
        → Type 0
    Builds p ts nodes ids m (none, p', m') =
        SameButIds p p' × (m'.allocs + m.frees + 3 * length nodes ≡ m.allocs + m'.frees)
    Builds p ts nodes ids m (some (ns, js), p', m') =
        SameButIds p p'
        × (ns ≡ nodes ++ wrap_all p.next_task_id ts)
        × (js ≡ ids ++ ids_from p.next_task_id ts)
        × Asked (3 * length ts) (3 * length ts) m m'

    build_step :
        (p : ThreadPool A S) (t : ThreadPoolTask A S) (ts : List (ThreadPoolTask A S))
        (nodes : List (QueuedTask A S)) (ids : List ℕ) (m : Memory) (p1 : ThreadPool A S)
        (m1 : Memory) (node : QueuedTask A S)
        (r : Option (List (QueuedTask A S) × List ℕ) × ThreadPool A S × Memory)
        → Creates p t m (some node, p1, m1)
        → Builds p1 ts (nodes ++ node ∷ []) (ids ++ node.task_id ∷ []) m1 r
        → Builds p (t ∷ ts) nodes ids m r
    unfolding wrap_all
    build_step p t ts nodes ids m p1 m1 node (none, p2, m2) c b = (
      SameButIds-trans p p1 p2 (_, c.1) b.0,
      omega (arith, b.1, c.2, length-append nodes (node ∷ [])),
    )
    build_step p t ts nodes ids m p1 m1 node (some (ns, js), p2, m2) c b = (
      SameButIds-trans p p1 p2 (_, c.1) b.0,
      rw (b.1, c.1, c.0) (append_assoc nodes _ _),
      rw (b.2, c.1, c.0) (append_assoc ids _ _),
      (rw (b.3.0) (c.2.0), omega (arith, b.3.1, c.2.1), omega (arith, b.3.2, c.2.2)),
    )

    build_cases :
        (p : ThreadPool A S) (t : ThreadPoolTask A S) (ts : List (ThreadPoolTask A S))
        (nodes : List (QueuedTask A S)) (ids : List ℕ) (m : Memory)
        (made : Option (QueuedTask A S) × ThreadPool A S × Memory)
        → Creates p t m made
        → ((q : ThreadPool A S) (ns : List (QueuedTask A S)) (js : List ℕ) (k : Memory)
            → Builds q ts ns js k (build_batch_nodes q ts req_id cb user_data ns js k))
        → Builds p (t ∷ ts) nodes ids m (elim made.0 [
          | none ↦ (none, made.1, free (3 * length nodes) made.2)
          | some node ↦
              build_batch_nodes made.1 ts req_id cb user_data
                (nodes ++ node ∷ [])
                (ids ++ node.task_id ∷ [])
                made.2
        ])
    build_cases p t ts nodes ids m (none, p1, m1) c rest = (c.0, omega (arith, c.1))
    build_cases p t ts nodes ids m (some node, p1, m1) c rest =
        build_step p t ts nodes ids m p1 m1 node
          (build_batch_nodes p1 ts req_id cb user_data (nodes ++ node ∷ [])
            (ids ++ node.task_id ∷ []) m1)
          c (rest p1 (nodes ++ node ∷ []) (ids ++ node.task_id ∷ []) m1)

    -- `build_batch_nodes` adds to the list a task for each task of the caller, in the order of the
    -- array, that runs the caller's function on the caller's argument and then the callback with the
    -- task's id; the ids, which it adds to the array of ids, count up from the next one modulo 2^64,
    -- and three blocks are held for each task. Or it fails, with each node of the list freed with its
    -- two blocks. The pool changes in its next id alone.
    pub build_batch_nodes-Builds :
        (p : ThreadPool A S) (ts : List (ThreadPoolTask A S)) (nodes : List (QueuedTask A S))
        (ids : List ℕ) (m : Memory)
        → Builds p ts nodes ids m (build_batch_nodes p ts req_id cb user_data nodes ids m)
    unfolding build_batch_nodes wrap_all
    build_batch_nodes-Builds p [] nodes ids m = (
      (p.next_task_id, refl),
      sym (append-nil nodes),
      sym (append-nil ids),
      (refl, omega arith, omega arith),
    )
    build_batch_nodes-Builds p (t ∷ ts) nodes ids m =
        build_cases p t ts nodes ids m (create_batch_node p t req_id cb user_data m)
          (create_batch_node-Creates p t m) (λ q ns js k. build_batch_nodes-Builds q ts ns js k)
