-- ===== src/Sync.antt =====
-- src/os_transport.c, the object on which the caller waits for a request: task_sync_t and
-- mark_task_group_completed, wait_for_task_complete. Each call holds the object's lock for its
-- whole effect.
pub mod Progress
use os_transport.Base.{
  ℕ, ◌+◌, ◌%◌, ◌^◌, Bool, true, false, Option, none, some, List, ◌==◌, if◌then◌else◌, minus_one,
}
use os_transport.Types.{ChunkInfo}

-- task_group_t: of the array of tasks the program reads, after the submission, the request id of the
-- first.
pub record TaskGroup : Type 0 where
  pub first_request_id : ℕ
  pub task_num : ℕ

-- struct task_sync, without its lock and its condition variable.
pub record TaskSync : Type 0 where
  pub request_completed : Bool
  pub total_tasks : ℕ
  pub completed_tasks : ℕ
  pub task_group : Option TaskGroup
  pub chunks : Option (List ChunkInfo)

-- What `calloc` gives.
abbrev pub zero_sync : TaskSync
zero_sync = record {
  request_completed = false;
  total_tasks = 0;
  completed_tasks = 0;
  task_group = none;
  chunks = none;
}

-- A failure completes the request; a success counts, and the last one completes it. For `none`, which
-- is NULL, nothing happens.
unfoldable pub mark_task_group_completed : Option TaskSync → (task_success : Bool) → Option TaskSync
mark_task_group_completed none task_success = none
mark_task_group_completed (some sync) false = some (record sync { request_completed = true })
mark_task_group_completed (some sync) true =
    let n = (sync.completed_tasks + 1) % 2 ^ 64 in
    if n == sync.total_tasks
    then some (record sync { completed_tasks = n; request_completed = true })
    else some (record sync { completed_tasks = n })

-- `none`: the caller waits. Otherwise the value that it returns, which is -1 for NULL.
unfoldable pub wait_for_task_complete : Option TaskSync → Option ℕ
wait_for_task_complete none = some minus_one
wait_for_task_complete (some sync) =
    if sync.request_completed
    then if sync.completed_tasks == sync.total_tasks then some 0 else some minus_one
    else none
