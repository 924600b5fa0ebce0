-- ===== src/Tests/Pools.antt =====
-- Pools for the tests: a running pool with no task, and one with two tasks of request 7 and one of
-- request 9 at worker 0.
use os_transport.Base.{
  some, total-update, total-zero, ℕ, ◌+◌, ◌≡◌, refl, true, false, none, List, [], ◌∷◌, length,
  arith,
}
use os_transport.Pool.{
  WorkerThread, idle, worker_count, set_worker, ThreadPoolTask, ThreadPool, RequestContext,
  QueuedTask,
}
use os_transport.Pool.Accounting.{Changes-IsValid, IsValid, load}
use os_transport.Pool.Queue.{attach_nodes_to_worker}
use os_transport.Pool.Lifecycle.{fresh_worker, fresh_pool}
use os_transport.Pool.Lifecycle.Laws.{IsEmpty-IsValid}
use os_transport.Pool.Worker.{internal_task_wrapper}
use os_transport.Pool.Requests.{hash_req_id, find_in, find_req_context, insert_req_context}
use os_transport.Pool.Submit.Attach.{inserted-Changes}
use os_transport.Memory.{Memory}

abbrev pub all_granted : Memory
all_granted = record { grants = λ k. true; requests = 0; allocs = 0; frees = 0 }

-- A task of the caller adds its argument to the state.
abbrev pub add_to : ℕ → ℕ → ℕ × ℕ
add_to a s = (0, s + a)

abbrev pub user_task : ℕ → ℕ → ThreadPoolTask ℕ ℕ
user_task r a = record {
  task_id = 0;
  request_id = r;
  task_func = add_to;
  task_arg = a;
  is_completed = false;
  free_task_self = false;
}

-- The same, queued with the id `n`.
abbrev pub queued_task : ℕ → ℕ → ℕ → QueuedTask ℕ ℕ
queued_task n r a = record {
  task_id = n;
  request_id = r;
  task_func = internal_task_wrapper;
  task_arg = record {
    user_func = add_to;
    user_arg = a;
    complete_cb = none;
    user_data = none;
    task_id = n;
    request_id = r;
    success = true;
  };
  is_completed = false;
  free_task_self = true;
}

abbrev pub idle_pool : ThreadPool ℕ ℕ
idle_pool = record (fresh_pool {A = ℕ} {S = ℕ}) {
  workers = λ i. record (fresh_worker i) { tid = i + 1; state = idle };
  is_running = true;
}

pub idle_pool-IsValid : IsValid idle_pool
idle_pool-IsValid = IsEmpty-IsValid idle_pool (record {
  indexed = λ i. refl;
  queues = λ i. refl;
  sizes = λ i. refl;
  quiet = λ i. refl;
  chains = λ i. refl;
})

abbrev pub context : ℕ → ℕ → RequestContext ℕ ℕ
context r n = record {
  request_id = r;
  worker_idx = 0;
  pending_count = n;
  batch_cb = none;
  batch_user_data = none;
}

abbrev pub with_tasks : ThreadPool ℕ ℕ → (r n : ℕ) → List (QueuedTask ℕ ℕ) → ThreadPool ℕ ℕ
with_tasks p r n ts =
    insert_req_context (set_worker p 0 (attach_nodes_to_worker (p.workers 0) ts (length ts)))
      (context r n)

abbrev pub tasks_of_7 : List (QueuedTask ℕ ℕ)
tasks_of_7 = queued_task 1 7 10 ∷ queued_task 2 7 20 ∷ []

abbrev pub pool_7 : ThreadPool ℕ ℕ
pool_7 = with_tasks idle_pool 7 2 tasks_of_7

abbrev pub pool_7_9 : ThreadPool ℕ ℕ
pool_7_9 = with_tasks pool_7 9 1 (queued_task 3 9 30 ∷ [])

load-idle_pool : load idle_pool ≡ 0
load-idle_pool = total-zero (λ w. length w.queue) worker_count idle_pool.workers (λ i. refl)

absent_7 : find_req_context idle_pool 7 ≡ none
unfolding find_req_context find_in hash_req_id
absent_7 = refl

abbrev at_7 : WorkerThread ℕ ℕ
at_7 = attach_nodes_to_worker (idle_pool.workers 0) tasks_of_7 2

pub pool_7-IsValid : IsValid pool_7
pool_7-IsValid = Changes-IsValid idle_pool 0 at_7 pool_7 (omega arith) idle_pool-IsValid (
    inserted-Changes idle_pool idle_pool-IsValid 0 (omega arith) 7 2 tasks_of_7 refl (omega arith)
      (λ k. ground arith) (omega (arith, load-idle_pool)) (context 7 2) absent_7 refl refl refl)

load-pool_7 : load pool_7 ≡ 2
unfolding insert_req_context attach_nodes_to_worker
load-pool_7 = omega (
  arith,
  load-idle_pool,
  total-update (λ w. length w.queue) worker_count idle_pool.workers 0 at_7 (omega arith),
)

absent_9 : find_req_context pool_7 9 ≡ none
unfolding find_req_context find_in hash_req_id insert_req_context
absent_9 = refl

pub pool_7_9-IsValid : IsValid pool_7_9
pool_7_9-IsValid =
    Changes-IsValid pool_7 0 (attach_nodes_to_worker (pool_7.workers 0) (queued_task 3 9 30 ∷ []) 1)
      pool_7_9 (omega arith) pool_7-IsValid
      (inserted-Changes pool_7 pool_7-IsValid 0 (omega arith) 9 1 (queued_task 3 9 30 ∷ []) refl
        (omega arith) (λ k. ground arith) (omega (arith, load-pool_7)) (context 9 1) absent_9 refl
        refl refl)

pub found_7 : find_req_context pool_7_9 7 ≡ some (context 7 2)
unfolding find_req_context find_in hash_req_id insert_req_context
found_7 = refl

pub found_9 : find_req_context pool_7_9 9 ≡ some (context 9 1)
unfolding find_req_context find_in hash_req_id insert_req_context
found_9 = refl

pub pool_7_9-running : pool_7_9.is_running ≡ true
unfolding insert_req_context
pool_7_9-running = refl

pub load-pool_7_9 : load pool_7_9 ≡ 3
unfolding insert_req_context attach_nodes_to_worker
load-pool_7_9 = omega (
  arith,
  load-pool_7,
  total-update (λ w. length w.queue) worker_count pool_7.workers 0
      (attach_nodes_to_worker (pool_7.workers 0) (queued_task 3 9 30 ∷ []) 1) (omega arith),
)

-- The queue of worker 0.
pub pool_7_9-queue :
    (pool_7_9.workers 0).queue ≡ queued_task 1 7 10 ∷ queued_task 2 7 20 ∷ queued_task 3 9 30 ∷ []
unfolding insert_req_context attach_nodes_to_worker
pool_7_9-queue = refl
