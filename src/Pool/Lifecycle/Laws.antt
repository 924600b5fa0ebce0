-- ===== src/Pool/Lifecycle/Laws.antt =====
-- A new pool of src/os_transport_thread_pool.c.
use os_transport.Base.{
  subst, ==→eq, ◌⊎◌, inr, inl, Bool-cases, ℕ, zero, suc, ◌≡◌, refl, Bool, none, some, [], ◌==◌,
  length, count_if, total-zero, arith,
}
use os_transport.Memory.{malloc, Memory}
use os_transport.Pool.{WorkerState, idle, ThreadPool, set_worker, worker_count, has_req}
use os_transport.Pool.Requests.{hash_req_id, find_req_context, find_in}
use os_transport.Pool.Accounting.{IsValid}
use os_transport.Pool.Lifecycle.{fresh_pool, create_worker, create_workers_from, thread_pool_init}

module _ {A S : Type 0} where
  -- No task, no context, and no request that a worker was woken for.
  pub record IsEmpty (p : ThreadPool A S) : Type 0 where
    pub indexed : (i : ℕ) → (p.workers i).worker_idx ≡ i
    pub queues : (i : ℕ) → (p.workers i).queue ≡ []
    pub sizes : (i : ℕ) → (p.workers i).queue_size ≡ 0
    pub quiet : (i : ℕ) → (p.workers i).pending_req ≡ 0
    pub chains : (h : ℕ) → p.req_hash h ≡ []

  none_found :
      (p : ThreadPool A S) (r : ℕ) → p.req_hash (hash_req_id r) ≡ [] → find_req_context p r ≡ none
  unfolding find_req_context find_in
  none_found p r h = rw (h)

  pub IsEmpty-IsValid : (p : ThreadPool A S) → IsEmpty p → IsValid p
  unfolding find_req_context find_in
  IsEmpty-IsValid p e = record {
    indexed = e.indexed;
    counted = λ i. rw (e.queues i, e.sizes i) (omega arith);
    unique = λ r h. rw (e.chains h) (omega arith);
    live = λ r ctx f. absurd (ground (arith, none_found p r (e.chains (hash_req_id r)), f));
    accounted = λ r. rw (e.chains (hash_req_id r)) (
        omega (
          arith,
          total-zero (λ w. count_if (has_req r) w.queue) worker_count p.workers
              (λ i. rw (e.queues i)),
        ));
    bounded =
        omega
          (arith, total-zero (λ w. length w.queue) worker_count p.workers (λ i. rw (e.queues i)));
  }

  tid_state-IsEmpty :
      (p : ThreadPool A S) (i tid : ℕ) (st : WorkerState)
      → IsEmpty p
      → IsEmpty (set_worker p i (record (p.workers i) { tid = tid; state = st }))
  tid_state-IsEmpty p i tid st e = record {
    indexed = λ j. ground (arith, e.indexed j, e.indexed i, ==→eq i j);
    queues = λ j. ground (arith, e.queues j, e.queues i);
    sizes = λ j. ground (arith, e.sizes j, e.sizes i);
    quiet = λ j. ground (arith, e.quiet j, e.quiet i);
    chains = e.chains;
  }

  create_worker-IsEmpty :
      (pc : ℕ → ℕ × ℕ) (p : ThreadPool A S) (i : ℕ) → IsEmpty p → IsEmpty (create_worker pc p i).1
  unfolding create_worker
  create_worker-IsEmpty pc p i e = elim (Bool-cases ((pc i).0 == 0)) [
    | inl e1 ↦ rw (e1) (tid_state-IsEmpty p i (pc i).1 idle e)
    | inr e1 ↦ rw (e1) (tid_state-IsEmpty p i (pc i).1 (p.workers i).state e)
  ]

  create_workers-IsEmpty :
      (pc : ℕ → ℕ × ℕ) (p : ThreadPool A S) (i n : ℕ)
      → IsEmpty p
      → IsEmpty (create_workers_from pc p i n).1
  unfolding create_workers_from
  create_workers-IsEmpty pc p i zero e = e
  create_workers-IsEmpty pc p i (suc n) e = elim (Bool-cases (create_worker pc p i).0) [
    | inl e1 ↦ rw (e1) (
        create_workers-IsEmpty pc (create_worker pc p i).1 (suc i) n
          (create_worker-IsEmpty pc p i e))
    | inr e1 ↦ rw (e1) (create_worker-IsEmpty pc p i e)
  ]

  fresh-IsEmpty : IsEmpty (fresh_pool {A = A} {S = S})
  fresh-IsEmpty = record {
    indexed = λ i. refl;
    queues = λ i. refl;
    sizes = λ i. refl;
    quiet = λ i. refl;
    chains = λ i. refl;
  }

  unfoldable pub created_pool : (ℕ → ℕ × ℕ) → Bool × ThreadPool A S
  created_pool pc = create_workers_from pc fresh_pool 0 worker_count

  given :
      (pc : ℕ → ℕ × ℕ) (s : S) (m : Memory)
      → ((thread_pool_init {A = A} pc s m).0 ≡ none)
        ⊎ ((thread_pool_init pc s m).0 ≡ some (created_pool pc).1)
  unfolding thread_pool_init created_pool
  given pc s m = ground arith

  -- No pool, or the pool with all its threads.
  pub thread_pool_init-cases :
      (pc : ℕ → ℕ × ℕ) (s : S) (m : Memory)
      → ((thread_pool_init {A = A} pc s m).0 ≡ none)
        ⊎ ((thread_pool_init pc s m ≡ (some (created_pool pc).1, s, (malloc m).1))
            × IsEmpty (created_pool pc).1)
  unfolding thread_pool_init created_pool
  thread_pool_init-cases pc s m =
      let e = create_workers-IsEmpty pc fresh_pool 0 worker_count fresh-IsEmpty in
      elim (Bool-cases (malloc m).0) [
        | inr no_memory ↦ inl (ground arith)
        | inl granted ↦ elim (Bool-cases (created_pool pc).0) [
          | inr failed ↦ inl (ground arith)
          | inl created ↦ inr (ground arith, e)
        ]
      ]

  -- The pool that thread_pool_init returns, if it returns one, has its books in order: no queue holds
  -- a task, no request has a context, and no worker was woken for a request.
  pub thread_pool_init-IsEmpty :
      (pc : ℕ → ℕ × ℕ) (s : S) (m : Memory) (p : ThreadPool A S)
      → (thread_pool_init pc s m).0 ≡ some p
      → IsEmpty p × IsValid p
  unfolding created_pool
  thread_pool_init-IsEmpty pc s m p h = elim (given pc s m) [
    | inl n ↦ absurd (ground (arith, n, h))
    | inr y ↦
        let same : (created_pool pc).1 ≡ p = ground (arith, y, h) in
        let e =
          subst IsEmpty same (create_workers-IsEmpty pc fresh_pool 0 worker_count fresh-IsEmpty) in
        (e, IsEmpty-IsValid p e)
  ]
