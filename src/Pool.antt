-- ===== src/Pool.antt =====
-- The state of the thread pool: the types of include/os_transport_thread_pool.h and
-- include/os_transport_thread_pool_internal.h. `A` is what a `void *` of the caller points to, and
-- `S` the state outside the pool that the caller's functions read and change. A fixed array is a
-- function of the index, and a linked list is the list of what its nodes hold, from its head.
pub mod Contract
pub mod Requests
pub mod Queue
pub mod Select
pub mod Submit
pub mod Worker
pub mod Cancel
pub mod Accounting
pub mod Lifecycle
use os_transport.Base.{
  ℕ, ◌%◌, ◌^◌, ◌+◌, Bool, true, false, Option, List, ◌==◌, if◌then◌else◌, update,
}
use os_transport.Memory.{Memory}

-- ThreadPoolTask: `task_func` returns an `int` and changes the state that it runs on.
pub record ThreadPoolTask (A S : Type 0) : Type 0 where
  pub task_id : ℕ
  pub request_id : ℕ
  pub task_func : A → S → ℕ × S
  pub task_arg : A
  pub is_completed : Bool
  pub free_task_self : Bool

-- TaskCompleteCb
abbrev pub TaskCompleteCb : Type 0 → Type 0 → Type 0
TaskCompleteCb A S = (task_id : ℕ) → (success : Bool) → (user_data : Option A) → S → S

-- InternalTask, the wrapper that the pool puts round a task of the caller.
pub record InternalTask (A S : Type 0) : Type 0 where
  pub user_func : A → S → ℕ × S
  pub user_arg : A
  pub complete_cb : Option (TaskCompleteCb A S)
  pub user_data : Option A
  pub task_id : ℕ
  pub request_id : ℕ
  pub success : Bool

-- A task in a queue: its argument is an InternalTask, and it runs on the state and the memory.
abbrev pub QueuedTask : Type 0 → Type 0 → Type 0
QueuedTask A S = ThreadPoolTask (InternalTask A S) (S × Memory)

-- WorkerState
pub data WorkerState : Type 0 where
  init idle busy exit : WorkerState

-- WorkerThread, without its lock and its condition variable. `tid` is 0 before the thread starts.
pub record WorkerThread (A S : Type 0) : Type 0 where
  pub tid : ℕ
  pub state : WorkerState
  pub worker_idx : ℕ
  pub queue : List (QueuedTask A S)
  pub queue_size : ℕ
  pub pending_req : ℕ

-- RequestContext: `pending_count` is the bit pattern of an `int`.
pub record RequestContext (A S : Type 0) : Type 0 where
  pub request_id : ℕ
  pub worker_idx : ℕ
  pub pending_count : ℕ
  pub batch_cb : Option (TaskCompleteCb A S)
  pub batch_user_data : Option A

-- ThreadPoolUrmaInfo
pub record UrmaInfo : Type 0 where
  pub jfce : ℕ
  pub jfc : ℕ
  pub urma_event_mode : Bool

-- struct _ThreadPool, without its locks and condition variables.
pub record ThreadPool (A S : Type 0) : Type 0 where
  pub workers : ℕ → WorkerThread A S
  pub is_running : Bool
  pub is_destroying : Bool
  pub next_task_id : ℕ
  pub urma_info : UrmaInfo
  pub req_hash : ℕ → List (RequestContext A S)

-- The size of the array `workers`.
abbrev pub worker_count : ℕ
worker_count = 64

-- REQ_HASH_SIZE
abbrev pub req_hash_size : ℕ
req_hash_size = 1024

-- A write through the pointer `&pool->workers[idx]`.
abbrev pub set_worker : {A S : Type 0} → ThreadPool A S → ℕ → WorkerThread A S → ThreadPool A S
set_worker p idx w = record p { workers = update p.workers idx w }

-- The test that a task in a queue belongs to a request.
abbrev pub has_req : {A S : Type 0} → ℕ → ThreadPoolTask A S → Bool
has_req req_id t = t.request_id == req_id

-- The test that it does not.
abbrev pub other_req : {A S : Type 0} → ℕ → ThreadPoolTask A S → Bool
other_req req_id t = if t.request_id == req_id then false else true
