-- ===== src/Pool/Cancel.antt =====
-- src/os_transport_thread_pool.c, thread_pool_cancel_tasks_by_req and update_context_after_cancel.
pub mod Bound
pub mod Laws
use os_transport.Base.{
  ℕ, ◌+◌, ◌-◌, ◌%◌, ◌^◌, Bool, true, false, not, Option, none, some, ◌==◌, if◌then◌else◌, minus_one,
}
use os_transport.Memory.{Memory, free}
use os_transport.Pool.{WorkerThread, RequestContext, ThreadPool, set_worker}
use os_transport.Pool.Requests.{find_req_context, store_pending, remove_req_context}
use os_transport.Pool.Queue.{cancel_in_worker_queue}

module _ {A S : Type 0} where
  -- The context goes, and is freed, when no task is left; the loop that unlinks it is that of
  -- `remove_req_context`.
  unfoldable pub update_context_after_cancel :
      ThreadPool A S
      → RequestContext A S
      → (request_id removed : ℕ) → Memory
      → ThreadPool A S × Memory
  update_context_after_cancel p ctx request_id removed m =
      let n = (ctx.pending_count + 2 ^ 32 - removed) % 2 ^ 32 in
      let p' = store_pending p request_id n in
      if n == 0 then (remove_req_context p' request_id, free 1 m) else (p', m)

  -- The context is updated only if a task was removed.
  unfoldable pub cancelled :
      ThreadPool A S
      → RequestContext A S
      → (request_id : ℕ) → ℕ × WorkerThread A S × Memory
      → ℕ × ThreadPool A S × Memory
  cancelled p ctx request_id (removed, w, m) =
      let p1 = set_worker p ctx.worker_idx w in
      let (p2, m2) = update_context_after_cancel p1 ctx request_id removed m in
      if removed == 0 then (removed, p1, m) else (removed, p2, m2)

  -- With the context found: the queue of its worker, then the context.
  unfoldable pub cancel_bound :
      ThreadPool A S → RequestContext A S → (request_id : ℕ) → Memory → ℕ × ThreadPool A S × Memory
  cancel_bound p ctx request_id m =
      cancelled p ctx request_id (cancel_in_worker_queue (p.workers ctx.worker_idx) request_id m)

  -- A NULL handle or a pool that does not run returns -1.
  unfoldable pub thread_pool_cancel_tasks_by_req :
      Option (ThreadPool A S) → (request_id : ℕ) → Memory → ℕ × Option (ThreadPool A S) × Memory
  thread_pool_cancel_tasks_by_req none request_id m = (minus_one, none, m)
  thread_pool_cancel_tasks_by_req (some p) request_id m =
      if p.is_running
      then elim (find_req_context p request_id) [
        | none ↦ (0, some p, m)
        | some ctx ↦
            let (removed, p', m') = cancel_bound p ctx request_id m in (removed, some p', m')
      ]
      else (minus_one, some p, m)
