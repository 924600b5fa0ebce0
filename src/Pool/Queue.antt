-- ===== src/Pool/Queue.antt =====
-- src/os_transport_thread_pool.c, the queue of one worker: worker_queue_push,
-- worker_queue_pop_by_req, attach_nodes_to_worker and the loop of cancel_in_worker_queue. The lock of
-- the worker is held in each of them.
pub mod Laws
use os_transport.Base.{
  ℕ, ◌+◌, ◌-◌, ◌%◌, ◌^◌, Bool, true, false, Option, none, some, List, [], ◌∷◌, ◌++◌, ◌==◌,
  if◌then◌else◌,
}
use os_transport.Memory.{Memory, malloc, free}
use os_transport.Pool.{QueuedTask, WorkerThread}

module _ {A S : Type 0} where
  -- It returns `false` when there is no memory for the node.
  unfoldable pub worker_queue_push :
      WorkerThread A S → QueuedTask A S → Memory → Bool × WorkerThread A S × Memory
  worker_queue_push w task m =
      let (granted, m') = malloc m in
      if granted
      then (
        true,
        record w { queue = w.queue ++ task ∷ []; queue_size = (w.queue_size + 1) % 2 ^ 32 },
        m',
      )
      else (false, w, m')

  -- The search for the first task of a request: the task, and the list with its node unlinked.
  unfoldable pub unlink_first :
      ℕ → List (QueuedTask A S) → Option (QueuedTask A S × List (QueuedTask A S))
  unlink_first req_id [] = none
  unlink_first req_id (t ∷ ts) =
      let rest = unlink_first req_id ts in
      if t.request_id == req_id
      then some (t, ts)
      else elim rest [ none ↦ none | some (found, left) ↦ some (found, t ∷ left) ]

  -- The node of the task that it returns is freed.
  unfoldable pub worker_queue_pop_by_req :
      WorkerThread A S → ℕ → Memory → Option (QueuedTask A S) × WorkerThread A S × Memory
  worker_queue_pop_by_req w req_id m = elim (unlink_first req_id w.queue) [
    | none ↦ (none, w, m)
    | some (task, left) ↦ (
      some task,
      record w { queue = left; queue_size = (w.queue_size + 2 ^ 32 - 1) % 2 ^ 32 },
      free 1 m,
    )
  ]

  unfoldable pub attach_nodes_to_worker :
      WorkerThread A S → List (QueuedTask A S) → (created : ℕ) → WorkerThread A S
  attach_nodes_to_worker w nodes created = record w {
    queue = w.queue ++ nodes;
    queue_size = (w.queue_size + created) % 2 ^ 32;
  }

  -- The loop of `cancel_in_worker_queue`: what stays, and the number of nodes that went.
  unfoldable pub cancel_loop : ℕ → List (QueuedTask A S) → (removed : ℕ) → List (QueuedTask A S) × ℕ
  cancel_loop req_id [] removed = ([], removed)
  cancel_loop req_id (t ∷ ts) removed =
      let (left, total) =
        cancel_loop req_id ts
          (if t.request_id == req_id then (removed + 1) % 2 ^ 32 else removed) in
      if t.request_id == req_id then (left, total) else (t ∷ left, total)

  -- For each task that goes, its argument, the task and its node are freed.
  unfoldable pub cancel_in_worker_queue :
      WorkerThread A S → ℕ → Memory → ℕ × WorkerThread A S × Memory
  cancel_in_worker_queue w req_id m =
      let (left, removed) = cancel_loop req_id w.queue 0 in
      (
        removed,
        record w { queue = left; queue_size = (w.queue_size + 2 ^ 32 - removed) % 2 ^ 32 },
        free (removed + removed + removed) m,
      )
