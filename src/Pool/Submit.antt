-- ===== src/Pool/Submit.antt =====
-- src/os_transport_thread_pool.c, the submission of one task and of a batch: generate_task_id,
-- thread_pool_submit_task, create_batch_node, validate_and_select_worker, build_batch_nodes,
-- update_batch_context, thread_pool_submit_batch_tasks. An array that the caller passes is the list
-- of its `task_count` entries; the empty list also stands for NULL.
pub mod Nodes
pub mod Attach
pub mod Steps
pub mod Context
pub mod Batch
use os_transport.Base.{
  ℕ, ◌+◌, ◌*◌, ◌%◌, ◌^◌, Bool, true, false, ◌&&◌, Option, none, some, List, [], ◌∷◌, ◌++◌, ◌==◌,
  if◌then◌else◌, length,
}
use os_transport.Memory.{Memory, malloc, free}
use os_transport.Pool.{ThreadPoolTask, TaskCompleteCb, QueuedTask, ThreadPool, set_worker}
use os_transport.Pool.Requests.{find_req_context, insert_req_context, store_pending}
use os_transport.Pool.Queue.{worker_queue_push, attach_nodes_to_worker}
use os_transport.Pool.Select.{select_best_worker}
use os_transport.Pool.Worker.{internal_task_wrapper}

module _ {A S : Type 0} where
  -- `next_task_id` is a uint64_t.
  unfoldable pub generate_task_id : ThreadPool A S → ℕ × ThreadPool A S
  generate_task_id p = (p.next_task_id, record p { next_task_id = (p.next_task_id + 1) % 2 ^ 64 })

  -- The wrapper and the task round a function of the caller, with both blocks in hand. The code
  -- leaves `free_task_self` as `malloc` gave it, and nothing reads it.
  unfoldable pub wrap_task :
      (task_id req_id : ℕ)
      → (A → S → ℕ × S)
      → A
      → Option (TaskCompleteCb A S)
      → Option A
      → QueuedTask A S
  wrap_task task_id req_id task_func task_arg complete_cb user_data = record {
    task_id = task_id;
    request_id = req_id;
    task_func = internal_task_wrapper;
    task_arg = record {
      user_func = task_func;
      user_arg = task_arg;
      complete_cb = complete_cb;
      user_data = user_data;
      task_id = task_id;
      request_id = req_id;
      success = true;
    };
    is_completed = false;
    free_task_self = false;
  }

  -- A node with its task, or `none` when one of its three blocks is refused.
  unfoldable pub create_batch_node :
      ThreadPool A S
      → ThreadPoolTask A S
      → (req_id : ℕ) → Option (TaskCompleteCb A S)
      → Option A
      → Memory
      → Option (QueuedTask A S) × ThreadPool A S × Memory
  create_batch_node p src req_id complete_cb user_data m0 =
      let (got_itask, m1) = malloc m0 in
      let (got_task, m2) = malloc m1 in
      let (got_node, m3) = malloc m2 in
      let (id, p') = generate_task_id p in
      if got_itask
      then if got_task
        then if got_node
          then (some (wrap_task id req_id src.task_func src.task_arg complete_cb user_data), p', m3)
          else (none, p', free 2 m3)
        else (none, p, free 1 m2)
      else (none, p, m1)

  -- The loop: `nodes` and `ids` are the list and the array so far. On a failure each node of the
  -- list is freed with its task and its argument.
  unfoldable pub build_batch_nodes :
      ThreadPool A S
      → List (ThreadPoolTask A S)
      → (req_id : ℕ) → Option (TaskCompleteCb A S)
      → Option A
      → (nodes : List (QueuedTask A S)) → (ids : List ℕ) → Memory
      → Option (List (QueuedTask A S) × List ℕ) × ThreadPool A S × Memory
  build_batch_nodes p [] req_id complete_cb user_data nodes ids m = (some (nodes, ids), p, m)
  build_batch_nodes p (t ∷ ts) req_id complete_cb user_data nodes ids m =
      let (made, p', m') = create_batch_node p t req_id complete_cb user_data m in
      elim made [
        | none ↦ (none, p', free (3 * length nodes) m')
        | some node ↦
            build_batch_nodes p' ts req_id complete_cb user_data (nodes ++ node ∷ [])
              (ids ++ node.task_id ∷ []) m'
      ]

  -- The loop that compares the request ids with that of the first task.
  unfoldable pub same_request : ℕ → List (ThreadPoolTask A S) → Bool
  same_request req_id [] = true
  same_request req_id (t ∷ ts) = t.request_id == req_id && same_request req_id ts

  -- The request id and the worker, with the array of ids allocated.
  unfoldable pub validate_and_select_worker :
      ThreadPool A S → List (ThreadPoolTask A S) → Memory → Option (ℕ × ℕ) × Memory
  validate_and_select_worker p [] m = (none, m)
  validate_and_select_worker p (t ∷ ts) m =
      let (granted, m') = malloc m in
      if p.is_running && same_request t.request_id ts
      then if granted
        then elim (select_best_worker p) [
          | none ↦ (none, free 1 m')
          | some idx ↦ (some (t.request_id, idx), m')
        ]
        else (none, m')
      else (none, m)

  -- It returns `false` when there is no memory for a new context.
  unfoldable pub update_batch_context :
      ThreadPool A S
      → (req_id worker_idx task_count : ℕ) → Option (TaskCompleteCb A S)
      → Option A
      → Memory
      → Bool × ThreadPool A S × Memory
  update_batch_context p req_id worker_idx task_count batch_cb batch_user_data m =
      let (granted, m') = malloc m in
      elim (find_req_context p req_id) [
        | some ctx ↦ (true, store_pending p req_id ((ctx.pending_count + task_count) % 2 ^ 32), m)
        | none ↦
            if granted
            then (
              true,
              insert_req_context p (record {
                request_id = req_id;
                worker_idx = worker_idx;
                pending_count = task_count;
                batch_cb = batch_cb;
                batch_user_data = batch_user_data;
              }),
              m',
            )
            else (false, p, m')
      ]

  -- The second half of the submission, with the nodes built. A context that could not be made is
  -- only logged.
  unfoldable pub attach_batch :
      ThreadPool A S
      → (req_id idx : ℕ) → List (QueuedTask A S)
      → (task_count : ℕ) → Option (TaskCompleteCb A S)
      → Option A
      → Memory
      → ThreadPool A S × Memory
  attach_batch p req_id idx nodes task_count batch_cb batch_user_data m =
      let w = attach_nodes_to_worker (p.workers idx) nodes (length nodes) in
      let (_, p', m') =
        update_batch_context (set_worker p idx w) req_id w.worker_idx task_count batch_cb
          batch_user_data m in
      (p', m')

  -- What follows `build_batch_nodes`: the ids of the tasks, or NULL with the array of ids freed.
  unfoldable pub finish_batch :
      (req_id idx task_count : ℕ)
      → (batch_complete_cb : Option (TaskCompleteCb A S)) → (batch_user_data : Option A)
      → Option (List (QueuedTask A S) × List ℕ) × ThreadPool A S × Memory
      → Option (List ℕ) × Option (ThreadPool A S) × Memory
  finish_batch req_id idx task_count batch_cb batch_data (none, p, m) = (none, some p, free 1 m)
  finish_batch req_id idx task_count batch_cb batch_data (some (nodes, ids), p, m) =
      let (p', m') = attach_batch p req_id idx nodes task_count batch_cb batch_data m in
      (some ids, some p', m')

  -- What follows `validate_and_select_worker`.
  unfoldable pub submit_to :
      ThreadPool A S
      → List (ThreadPoolTask A S)
      → (complete_cb : Option (TaskCompleteCb A S)) → (user_data : Option A)
      → (batch_complete_cb : Option (TaskCompleteCb A S)) → (batch_user_data : Option A)
      → Option (ℕ × ℕ) × Memory
      → Option (List ℕ) × Option (ThreadPool A S) × Memory
  submit_to p tasks complete_cb user_data batch_cb batch_data (none, m) = (none, some p, m)
  submit_to p tasks complete_cb user_data batch_cb batch_data (some (req_id, idx), m) =
      finish_batch req_id idx (length tasks) batch_cb batch_data
        (build_batch_nodes p tasks req_id complete_cb user_data [] [] m)

  unfoldable pub thread_pool_submit_batch_tasks :
      Option (ThreadPool A S)
      → List (ThreadPoolTask A S)
      → (complete_cb : Option (TaskCompleteCb A S)) → (user_data : Option A)
      → (batch_complete_cb : Option (TaskCompleteCb A S)) → (batch_user_data : Option A) → Memory
      → Option (List ℕ) × Option (ThreadPool A S) × Memory
  thread_pool_submit_batch_tasks none tasks complete_cb user_data batch_cb batch_data m =
      (none, none, m)
  thread_pool_submit_batch_tasks (some p) tasks complete_cb user_data batch_cb batch_data m =
      submit_to p tasks complete_cb user_data batch_cb batch_data
        (validate_and_select_worker p tasks m)

  -- The context of a single task. `none` is a write through the NULL that `malloc` returned, which
  -- the code does not test.
  unfoldable pub update_task_context :
      ThreadPool A S → (request_id worker_idx : ℕ) → Memory → Option (ThreadPool A S × Memory)
  update_task_context p request_id worker_idx m =
      let (granted, m') = malloc m in
      elim (find_req_context p request_id) [
        | some ctx ↦ some (store_pending p request_id ((ctx.pending_count + 1) % 2 ^ 32), m)
        | none ↦
            if granted
            then some (
              insert_req_context p (record {
                request_id = request_id;
                worker_idx = worker_idx;
                pending_count = 1;
                batch_cb = none;
                batch_user_data = none;
              }),
              m',
            )
            else none
      ]

  -- The submission of a task with both of its blocks in hand and its id taken.
  unfoldable pub submit_wrapped :
      ThreadPool A S → QueuedTask A S → Memory → Option (ℕ × ThreadPool A S × Memory)
  submit_wrapped p task m = elim (select_best_worker p) [
    | none ↦ some (0, p, free 2 m)
    | some idx ↦
        let (pushed, w, m') = worker_queue_push (p.workers idx) task m in
        let done = update_task_context (set_worker p idx w) task.request_id w.worker_idx m' in
        if pushed
        then elim done [ none ↦ none | some (p', m'') ↦ some (task.task_id, p', m'') ]
        else some (0, p, free 2 m')
  ]

  -- The id of the task, or 0; `none` is the crash of `update_task_context`. The handle and the
  -- function may be NULL.
  unfoldable pub thread_pool_submit_task :
      Option (ThreadPool A S)
      → (request_id : ℕ) → (task_func : Option (A → S → ℕ × S)) → A
      → Option (TaskCompleteCb A S)
      → Option A
      → Memory
      → Option (ℕ × Option (ThreadPool A S) × Memory)
  thread_pool_submit_task none request_id task_func task_arg complete_cb user_data m =
      some (0, none, m)
  thread_pool_submit_task (some p) request_id none task_arg complete_cb user_data m =
      some (0, some p, m)
  thread_pool_submit_task (some p) request_id (some f) task_arg complete_cb user_data m =
      let (got_itask, m1) = malloc m in
      let (got_task, m2) = malloc m1 in
      let (id, p') = generate_task_id p in
      let task = wrap_task id request_id f task_arg complete_cb user_data in
      if p.is_running
      then if got_itask
        then if got_task
          then elim (submit_wrapped p' task m2) [
            | none ↦ none
            | some (r, p2, m3) ↦ some (r, some p2, m3)
          ]
          else some (0, some p, free 1 m2)
        else some (0, some p, m1)
      else some (0, some p, m)
