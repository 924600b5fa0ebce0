-- ===== src/Transport.antt =====
-- src/os_transport.c: the state of a process that uses os_transport, and the helpers that the
-- requests share. `N` is the state of the platform.
pub mod Tasks
pub mod Words
pub mod Register
pub mod Request
pub mod Lifecycle
use os_transport.Base.{ℕ, ◌+◌, Bool, true, false, Option, none, some, ◌==◌, if◌then◌else◌, update}
use os_transport.Memory.{Memory, malloc, free}
use os_transport.Types.{ChunkInfo, WriteInfo, RecvInfo}
use os_transport.Platform.{Platform}
use os_transport.Sync.{TaskSync, zero_sync}
use os_transport.Pool.{ThreadPool}

-- What the workers and the callers share: the platform, and the sync objects by their addresses.
-- `next_sync` is the address of the next one.
pub record World (N : Type 0) : Type 0 where
  pub net : N
  pub syncs : ℕ → TaskSync
  pub next_sync : ℕ

-- send_task_arg_t and recv_task_arg_t. The program writes a chunk only before it submits the tasks,
-- so the pointer to it is the chunk; the pointer to the sync object is its address.
pub data TaskArg : Type 0 where
  send_arg : (sync : ℕ) → ChunkInfo → (is_last_chunk : Bool) → WriteInfo → TaskArg
  recv_arg : (sync : ℕ) → ChunkInfo → (is_last_chunk : Bool) → RecvInfo → TaskArg

-- task_type_t
pub data TaskType : Type 0 where
  null_task send_task recv_task : TaskType

-- os_transport_handle_t
pub record Handle (N : Type 0) : Type 0 where
  pub urma_ctx : ℕ
  pub worker_thread_num : ℕ
  pub urma_event_mode : Bool
  pub thread_pool : Option (ThreadPool TaskArg (World N))

-- The process: `g_inited`, the memory, the shared state.
pub record System (N : Type 0) : Type 0 where
  pub g_inited : Bool
  pub memory : Memory
  pub world : World N

-- The second and the third request are made whatever the other returns.
unfoldable pub alloc_task_group : (task_num task_arg_size : ℕ) → Memory → Bool × Memory
alloc_task_group task_num task_arg_size m =
    let (got_group, m1) = malloc m in
    let (got_tasks, m2) = malloc m1 in
    let (got_args, m3) = malloc m2 in
    if task_num == 0
    then (false, m)
    else if task_arg_size == 0
    then (false, m)
    else if got_group
    then if got_tasks
      then if got_args then (true, m3) else (false, free 2 m3)
      else if got_args
      then (false, free 2 m3)
      else (false, free 1 m3)
    else (false, m1)

module _ {N : Type 0} where
  abbrev pub set_sync : World N → ℕ → TaskSync → World N
  set_sync w a sync = record w { syncs = update w.syncs a sync }

  -- The address of a new sync object, or `none` for -1.
  unfoldable pub init_task_sync : Platform N → World N → Memory → Option ℕ × World N × Memory
  init_task_sync pf w m =
      let (granted, m1) = malloc m in
      let (mutex_ret, net1) = pf.mutex_init w.net in
      let (cond_ret, net2) = pf.cond_init net1 in
      if granted
      then if mutex_ret == 0
        then if cond_ret == 0
          then (
            some w.next_sync,
            record {
              net = net2;
              syncs = update w.syncs w.next_sync zero_sync;
              next_sync = w.next_sync + 1;
            },
            m1,
          )
          else (none, record w { net = net2 }, free 1 m1)
        else (none, record w { net = net1 }, free 1 m1)
      else (none, w, m1)
