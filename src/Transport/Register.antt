-- ===== src/Transport/Register.antt =====
-- src/os_transport.c, the tasks of a request: register_send_tasks, register_recv_tasks,
-- construct_and_register_worker_task, register_tasks_and_bind_chunks.
pub mod Laws
use os_transport.Base.{
  ℕ, suc, ◌-◌, Bool, true, false, Option, none, some, List, [], ◌∷◌, ◌==◌, ltb, if◌then◌else◌,
  is_null,
}
use os_transport.Memory.{Memory, free}
use os_transport.Types.{ChunkInfo, WriteInfo, RecvInfo}
use os_transport.Platform.{Platform}
use os_transport.Sync.{TaskGroup}
use os_transport.Pool.{ThreadPoolTask}
use os_transport.Pool.Submit.{thread_pool_submit_batch_tasks}
use os_transport.Transport.{
  World, TaskArg, TaskType, send_task, recv_task, Handle, set_sync, alloc_task_group,
  init_task_sync,
}
use os_transport.Transport.Tasks.{
  construct_send_task_arg, construct_recv_task_arg, construct_worker_task,
}

-- urma_info_t, the union of the templates of both directions.
pub data UrmaRequest : Type 0 where
  write_info : WriteInfo → UrmaRequest
  recv_info : RecvInfo → UrmaRequest

abbrev pub TaskFunc : Type 0 → Type 0
TaskFunc N = TaskArg → World N → ℕ × World N

abbrev pub PoolTask : Type 0 → Type 0
PoolTask N = ThreadPoolTask TaskArg (World N)

-- The chunks behind the first.
abbrev pub behind_first : List ChunkInfo → List ChunkInfo
behind_first [] = []
behind_first (c ∷ cs) = cs

module _ {N : Type 0} where
  -- The loop over the chunks from `idx` on: the i-th task is for the chunk of the same index.
  unfoldable pub send_tasks :
      (chunk_num idx : ℕ) → List ChunkInfo → TaskFunc N → WriteInfo → (sync : ℕ) → List (PoolTask N)
  send_tasks chunk_num idx [] task_func info sync = []
  send_tasks chunk_num idx (c ∷ cs) task_func info sync =
      construct_worker_task idx info.user_ctx_server.request_id task_func
        (construct_send_task_arg info c idx (idx == chunk_num - 1) sync)
      ∷ send_tasks chunk_num (suc idx) cs task_func info sync

  unfoldable pub recv_tasks :
      (chunk_num idx : ℕ) → List ChunkInfo → TaskFunc N → RecvInfo → (sync : ℕ) → List (PoolTask N)
  recv_tasks chunk_num idx [] task_func info sync = []
  recv_tasks chunk_num idx (c ∷ cs) task_func info sync =
      construct_worker_task idx info.request_id task_func
        (construct_recv_task_arg info c (idx == chunk_num - 1) sync)
      ∷ recv_tasks chunk_num (suc idx) cs task_func info sync

  -- What both directions do with their tasks: the count in the sync object, the submission, and the
  -- task group, which is kept or freed. `true` is the return value 0. The ids that the pool returns
  -- are freed at once.
  unfoldable pub submit_group :
      Handle N
      → List (PoolTask N)
      → (task_num request_id sync : ℕ) → World N
      → Memory
      → Bool × Handle N × World N × Memory
  submit_group h tasks task_num request_id sync w m =
      let w1 = set_sync w sync (record (w.syncs sync) { total_tasks = task_num }) in
      let (ids, pool, m1) =
        thread_pool_submit_batch_tasks h.thread_pool tasks none none none none m in
      let h1 = record h { thread_pool = pool } in
      let group : TaskGroup = record { first_request_id = request_id; task_num = task_num } in
      if is_null ids then (false, h1, w1, free 3 m1) else (
        true,
        h1,
        set_sync w1 sync (record (w1.syncs sync) { task_group = some group }),
        free 1 m1,
      )

  -- The first chunk is left to the calling thread. `arg_size` is the size of a task argument.
  unfoldable pub register_send_tasks :
      (arg_size : ℕ)
      → Handle N
      → List ChunkInfo
      → (chunk_num : ℕ) → TaskFunc N
      → WriteInfo
      → (sync : ℕ) → World N
      → Memory
      → Bool × Handle N × World N × Memory
  register_send_tasks arg_size h chunks chunk_num task_func info sync w m =
      let task_num = chunk_num - 1 in
      let (granted, m1) = alloc_task_group task_num arg_size m in
      let tasks = send_tasks chunk_num 1 (behind_first chunks) task_func info sync in
      if ltb chunk_num 2
      then (false, h, w, m)
      else if granted
      then submit_group h tasks task_num info.user_ctx_server.request_id sync w m1
      else (false, h, w, m1)

  unfoldable pub register_recv_tasks :
      (arg_size : ℕ)
      → Handle N
      → List ChunkInfo
      → (chunk_num : ℕ) → TaskFunc N
      → RecvInfo
      → (sync : ℕ) → World N
      → Memory
      → Bool × Handle N × World N × Memory
  register_recv_tasks arg_size h chunks chunk_num task_func info sync w m =
      let (granted, m1) = alloc_task_group chunk_num arg_size m in
      let tasks = recv_tasks chunk_num 0 chunks task_func info sync in
      if granted
      then submit_group h tasks chunk_num info.request_id sync w m1
      else (false, h, w, m1)

  -- The dispatch on the type of the task. The union is read as the type says; a type that does not
  -- fit what was stored does not occur.
  unfoldable pub register_by_type :
      (arg_size : ℕ)
      → Handle N
      → List ChunkInfo
      → (chunk_num : ℕ) → TaskType
      → TaskFunc N
      → UrmaRequest
      → (sync : ℕ) → World N
      → Memory
      → Bool × Handle N × World N × Memory
  register_by_type arg_size h chunks chunk_num send_task task_func (write_info i) sync w m =
      register_send_tasks arg_size h chunks chunk_num task_func i sync w m
  register_by_type arg_size h chunks chunk_num recv_task task_func (recv_info i) sync w m =
      register_recv_tasks arg_size h chunks chunk_num task_func i sync w m
  register_by_type arg_size h chunks chunk_num _ task_func _ sync w m = (false, h, w, m)

  -- The new sync object and the outcome of the registration; on a failure the object is freed.
  unfoldable pub construct_and_register_worker_task :
      Platform N
      → (arg_size : ℕ) → Handle N
      → List ChunkInfo
      → (chunk_num : ℕ) → TaskType
      → TaskFunc N
      → UrmaRequest
      → World N
      → Memory
      → Option ℕ × Handle N × World N × Memory
  construct_and_register_worker_task pf arg_size h chunks chunk_num type task_func info w m =
      let (made, w1, m1) = init_task_sync pf w m in
      if chunk_num == 0 then (none, h, w, m) else elim made [
        | none ↦ (none, h, w1, m1)
        | some sync ↦
            let (good, h2, w2, m2) =
              register_by_type arg_size h chunks chunk_num type task_func info sync w1 m1 in
            if good then (some sync, h2, w2, m2) else (none, h2, w2, free 1 m2)
      ]

  -- The chunks are bound to the sync object, which owns them from now on.
  unfoldable pub register_tasks_and_bind_chunks :
      Platform N
      → (arg_size : ℕ) → Handle N
      → List ChunkInfo
      → (chunk_num : ℕ) → TaskType
      → TaskFunc N
      → UrmaRequest
      → World N
      → Memory
      → Option ℕ × Handle N × World N × Memory
  register_tasks_and_bind_chunks pf arg_size h chunks chunk_num type task_func info w m =
      let (made, h1, w1, m1) =
        construct_and_register_worker_task pf arg_size h chunks chunk_num type task_func info w m in
      elim made [
        | none ↦ (none, h1, w1, m1)
        | some sync ↦
            (some sync, h1, set_sync w1 sync (record (w1.syncs sync) { chunks = some chunks }), m1)
      ]
