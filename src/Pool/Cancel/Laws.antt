-- ===== src/Pool/Cancel/Laws.antt =====
-- What a cancellation of src/os_transport_thread_pool.c does to the pool.
use os_transport.Base.{
  ℕ, ◌≡◌, ◌⊎◌, refl, ap, true, Option, none, some, inl, inr, Option-cases, arith,
}
use os_transport.Memory.{Memory}
use os_transport.Pool.{WorkerThread, RequestContext, ThreadPool}
use os_transport.Pool.Requests.{find_req_context}
use os_transport.Pool.Queue.{cancel_in_worker_queue}
use os_transport.Pool.Queue.Laws.{cancel_in_worker_queue-Cancels}
use os_transport.Pool.Accounting.{pending_of, queued, IsValid, length-le-load}
use os_transport.Pool.Cancel.Bound.{cancel_split, CancelsBound}
use os_transport.Pool.Cancel.{cancelled, cancel_bound, thread_pool_cancel_tasks_by_req}

module _ {A S : Type 0} where
  -- What the call does, by what the table holds of the request.
  abbrev pub CancelOutcome :
      (p : ThreadPool A S)
      → IsValid p
      → (r : ℕ) → ℕ × Option (ThreadPool A S) × Memory
      → Memory
      → Type 0
  CancelOutcome p v r (n, out, m') m =
      ((find_req_context p r ≡ none) × (n ≡ 0) × (out ≡ some p) × (m' ≡ m) × (queued p r ≡ 0))
      ⊎ ((ctx : RequestContext A S) × (found : find_req_context p r ≡ some ctx) × (p' : ThreadPool A
            S)
          × (out ≡ some p')
          × CancelsBound p v r ctx found n p' m m')

  cancel_absent :
      (p : ThreadPool A S) (r : ℕ) (m : Memory)
      → p.is_running ≡ true
      → find_req_context p r ≡ none
      → thread_pool_cancel_tasks_by_req (some p) r m ≡ (0, some p, m)
  unfolding thread_pool_cancel_tasks_by_req
  cancel_absent p r m run absent = ground arith

  cancel_found :
      (p : ThreadPool A S) (r : ℕ) (ctx : RequestContext A S) (m : Memory)
      → p.is_running ≡ true
      → find_req_context p r ≡ some ctx
      → thread_pool_cancel_tasks_by_req (some p) r m ≡ (
          let (n, p', m') =
            cancelled p ctx r (cancel_in_worker_queue (p.workers ctx.worker_idx) r m) in
          (n, some p', m'))
  unfolding thread_pool_cancel_tasks_by_req cancel_bound
  cancel_found p r ctx m run found = ground arith

  cancelled-number :
      (p : ThreadPool A S) (ctx : RequestContext A S) (r n : ℕ) (w : WorkerThread A S) (m : Memory)
      → (cancelled p ctx r (n, w, m)).0 ≡ n
  unfolding cancelled
  cancelled-number p ctx r n w m = ground arith

  -- On a running pool whose books are right: if the request has no context, then no task of it is in
  -- any queue, and `thread_pool_cancel_tasks_by_req` returns 0 and changes nothing. Otherwise it takes
  -- the tasks of the request out of the queue of the worker that the context names and returns their
  -- number; the other tasks of this queue stay, in their order, and so do the other fields of the worker
  -- but for its counter, the other workers, the other contexts and the flags of the pool. The context
  -- counts as many tasks less, and goes if none is left; three blocks for each task and one for a
  -- context that goes are given back, and the books are right.
  pub thread_pool_cancel_tasks_by_req-CancelOutcome :
      (p : ThreadPool A S) (v : IsValid p) (r : ℕ) (m : Memory)
      → p.is_running ≡ true
      → CancelOutcome p v r (thread_pool_cancel_tasks_by_req (some p) r m) m
  thread_pool_cancel_tasks_by_req-CancelOutcome p v r m run =
      elim (Option-cases (find_req_context p r)) [
        | inl absent ↦
            rw (cancel_absent p r m run absent)
              (inl (absent, refl, refl, refl, omega (arith, v.accounted r, ap pending_of absent)))
        | inr (ctx, found) ↦
            let w = p.workers ctx.worker_idx in
            let c =
              cancel_in_worker_queue-Cancels r w m (v.counted ctx.worker_idx) (
                omega (arith, v.bounded, length-le-load p ctx.worker_idx (v.live r ctx found).1)) in
            let (n, w', m') = cancel_in_worker_queue w r m in
            rw (cancel_found p r ctx m run found) (
              inr (
                ctx,
                found,
                (cancelled p ctx r (n, w', m')).1,
                refl,
                rw (cancelled-number p ctx r n w' m') (cancel_split p v r ctx found n w' m m' c),
              ))
      ]
