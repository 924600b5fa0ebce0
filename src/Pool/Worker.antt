-- ===== src/Pool/Worker.antt =====
-- src/os_transport_thread_pool.c, what a worker thread does and what wakes it:
-- internal_task_wrapper, worker_process_task, worker_routine and
-- thread_pool_wake_up_worker_by_req_id. The caller's functions change the state of type `S`; they do
-- not call the pool. A worker holds its lock while it runs a task.
pub mod Laws
pub mod Task
pub mod Progress
pub mod Wakeups
pub mod Completion
use os_transport.Base.{
  ℕ, ◌+◌, ◌-◌, ◌%◌, ◌^◌, Bool, true, false, not, ◌&&◌, Option, none, some, ◌==◌, if◌then◌else◌,
  minus_one,
}
use os_transport.Memory.{Memory, free}
use os_transport.Pool.{
  ThreadPoolTask, TaskCompleteCb, InternalTask, QueuedTask, WorkerState, idle, busy, exit,
  WorkerThread, RequestContext, ThreadPool, set_worker,
}
use os_transport.Pool.Requests.{find_req_context, store_pending, remove_req_context}
use os_transport.Pool.Queue.{worker_queue_pop_by_req}

module _ {A S : Type 0} where
  -- A callback, which may be NULL.
  abbrev pub call_back :
      Option (TaskCompleteCb A S) → (task_id : ℕ) → Bool → (user_data : Option A) → S → S
  call_back none task_id success user_data s = s
  call_back (some cb) task_id success user_data s = cb task_id success user_data s

  -- The function of every task in a queue; it frees its InternalTask.
  unfoldable pub internal_task_wrapper : InternalTask A S → S × Memory → ℕ × (S × Memory)
  internal_task_wrapper t (s, m) =
      let (ret, s') = t.user_func t.user_arg s in
      (ret, (call_back t.complete_cb t.task_id t.success t.user_data s', free 1 m))

  -- The batch is over: its callback runs, and the context is unlinked and freed.
  unfoldable pub finish_request :
      ThreadPool A S → RequestContext A S → ℕ → S → Memory → ThreadPool A S × S × Memory
  finish_request p ctx req_id s m =
      (remove_req_context p req_id, call_back ctx.batch_cb 0 true ctx.batch_user_data s, free 1 m)

  -- `ctx->pending_count--`, and the end of the batch at 0.
  unfoldable pub count_down :
      ThreadPool A S → Option (RequestContext A S) → ℕ → S → Memory → ThreadPool A S × S × Memory
  count_down p none req_id s m = (p, s, m)
  count_down p (some ctx) req_id s m =
      let n = (ctx.pending_count + 2 ^ 32 - 1) % 2 ^ 32 in
      if n == 0
      then finish_request (store_pending p req_id n) ctx req_id s m
      else (store_pending p req_id n, s, m)

  unfoldable pub worker_process_task :
      ThreadPool A S
      → (idx : ℕ) → QueuedTask A S
      → (req_id : ℕ) → S
      → Memory
      → ThreadPool A S × S × Memory
  worker_process_task p idx task req_id s m =
      let p1 = set_worker p idx (record (p.workers idx) { state = busy }) in
      let (_, (s1, m1)) = task.task_func task.task_arg (s, m) in
      let (p2, s2, m2) = count_down p1 (find_req_context p1 req_id) req_id s1 m1 in
      (set_worker p2 idx (record (p2.workers idx) { state = idle }), s2, free 1 m2)

  -- What the worker does with the result of `worker_queue_pop_by_req`.
  unfoldable pub run_popped :
      ThreadPool A S
      → (idx req_to_exec : ℕ) → Option (QueuedTask A S) × WorkerThread A S × Memory
      → S
      → ThreadPool A S × S × Memory
  run_popped p idx req_to_exec (none, w, m) s = (set_worker p idx w, s, m)
  run_popped p idx req_to_exec (some task, w, m) s =
      worker_process_task (set_worker p idx w) idx task req_to_exec s m

  -- One round of the loop of `worker_routine`, from the wait on. A worker that goes on waiting
  -- changes nothing.
  unfoldable pub worker_round :
      ThreadPool A S → (idx : ℕ) → S → Memory → ThreadPool A S × S × Memory
  worker_round p idx s m =
      let w = p.workers idx in
      if w.pending_req == 0
      then if p.is_destroying
        then (set_worker p idx (record w { state = exit }), s, m)
        else (p, s, m)
      else run_popped p idx w.pending_req
          (worker_queue_pop_by_req (record w { pending_req = 0 }) w.pending_req m) s

  -- It returns 0 or -1, and the worker that it signals finds the request in `pending_req`.
  unfoldable pub thread_pool_wake_up_worker_by_req_id : ThreadPool A S → ℕ → ℕ × ThreadPool A S
  thread_pool_wake_up_worker_by_req_id p request_id = elim (find_req_context p request_id) [
    | none ↦ (minus_one, p)
    | some ctx ↦ (
      0,
      set_worker p ctx.worker_idx (record (p.workers ctx.worker_idx) { pending_req = request_id }),
    )
  ]
