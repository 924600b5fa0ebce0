-- ===== src/Tests/Requests.antt =====
-- The thread pool on concrete requests.
use os_transport.Pool.Queue.{
  worker_queue_pop_by_req, cancel_loop, attach_nodes_to_worker, cancel_in_worker_queue,
  unlink_first,
}
use os_transport.Pool.Queue.Laws.{
  IsFirst, cancel_in_worker_queue-Cancels, worker_queue_pop_by_req-Pops, Cancels, Pops,
}
use os_transport.Pool.Requests.{
  remove_in, store_in, store_pending, hash_req_id, remove_req_context, find_in, insert_req_context,
  find_req_context,
}
use os_transport.Pool.Submit.Batch.{thread_pool_submit_batch_tasks-SubmitOutcome, SubmitOutcome}
use os_transport.Pool.Accounting.{IsValid}
use os_transport.Pool.Lifecycle.{
  create_worker, fresh_pool, create_workers_from, fresh_worker, thread_pool_init,
}
use os_transport.Pool.{has_req, worker_count, idle, WorkerThread, ThreadPool}
use os_transport.Pool.Cancel.Laws.{thread_pool_cancel_tasks_by_req-CancelOutcome, CancelOutcome}
use os_transport.Pool.Worker.{
  finish_request, count_down, internal_task_wrapper, worker_process_task, run_popped, worker_round,
  thread_pool_wake_up_worker_by_req_id,
}
use os_transport.Pool.Submit.Nodes.{build_batch_nodes-Builds, Builds}
use os_transport.Pool.Lifecycle.Laws.{thread_pool_init-IsEmpty, IsEmpty}
use os_transport.Tests.Pools.{
  load-pool_7_9, pool_7_9-running, found_9, found_7, all_granted, tasks_of_7, context, queued_task,
  user_task, pool_7_9-IsValid, with_tasks, idle_pool, pool_7_9,
}
use os_transport.Pool.Worker.Laws.{worker_round-IsValid, wake_up-IsValid}
use os_transport.Pool.Worker.Wakeups.{wake_up_zero, wake_up-wake_up}
use os_transport.Pool.Worker.Task.{after_task, after_task}
use os_transport.Pool.Worker.Progress.{wake_up-Runs, Runs}
use os_transport.Pool.Submit.{thread_pool_submit_batch_tasks, build_batch_nodes}
use os_transport.Pool.Cancel.{thread_pool_cancel_tasks_by_req}
use os_transport.Pool.Requests.Laws.{find-remove}
use os_transport.Memory.{free}
use os_transport.Pool.Worker.Completion.{serve-Ends, Ends, serve-Ends, Ends, serve}
use os_transport.Base.{
  count_if, ◌^◌, ◌==◌, if◌then◌else◌, some, ℕ, ◌+◌, ◌^◌, ◌≡◌, refl, false, none, [], ◌∷◌, arith,
}

-- A batch of one task that joins request 9.
thread_pool_submit_batch_tasks-SubmitOutcome_example :
    SubmitOutcome pool_7_9 (user_task 9 5) [] none none none none all_granted (
      thread_pool_submit_batch_tasks
        (some pool_7_9)
        (user_task 9 5 ∷ [])
        none
        none
        none
        none
        all_granted)
thread_pool_submit_batch_tasks-SubmitOutcome_example =
    thread_pool_submit_batch_tasks-SubmitOutcome pool_7_9 (user_task 9 5) [] none none none none
      all_granted pool_7_9-IsValid (omega (arith, load-pool_7_9))

pool_7_9-IsFirst :
    IsFirst 7
      (pool_7_9.workers 0).queue
      (queued_task 1 7 10)
      (queued_task 2 7 20 ∷ queued_task 3 9 30 ∷ [])
unfolding insert_req_context attach_nodes_to_worker
pool_7_9-IsFirst = record {
  before = [];
  behind = queued_task 2 7 20 ∷ queued_task 3 9 30 ∷ [];
  whole = refl;
  rest = refl;
  fits = refl;
  none_before = refl;
}

-- The wake-up for request 7 runs its first task.
wake_up-Runs_example :
    let (ret, p1) = thread_pool_wake_up_worker_by_req_id pool_7_9 7 in
    let (p2, s2, m2) = worker_round p1 0 100 all_granted in
    (ret ≡ 0)
    × (s2 ≡ (after_task (context 7 2) (queued_task 1 7 10) 100 (free 1 all_granted)).0)
    × (m2 ≡ (after_task (context 7 2) (queued_task 1 7 10) 100 (free 1 all_granted)).1)
    × Runs pool_7_9 7
        (context 7 2)
        (queued_task 1 7 10)
        (queued_task 2 7 20 ∷ queued_task 3 9 30 ∷ [])
        p2
wake_up-Runs_example =
    wake_up-Runs pool_7_9 pool_7_9-IsValid 7 (context 7 2) found_7 (omega arith)
      (queued_task 1 7 10) (queued_task 2 7 20 ∷ queued_task 3 9 30 ∷ []) pool_7_9-IsFirst 100
      all_granted

thread_pool_cancel_tasks_by_req-CancelOutcome_example :
    CancelOutcome pool_7_9 pool_7_9-IsValid 7
      (thread_pool_cancel_tasks_by_req (some pool_7_9) 7 all_granted)
      all_granted
thread_pool_cancel_tasks_by_req-CancelOutcome_example =
    thread_pool_cancel_tasks_by_req-CancelOutcome pool_7_9 pool_7_9-IsValid 7 all_granted
      pool_7_9-running

abbrev woken_pool : ThreadPool ℕ ℕ
woken_pool = (thread_pool_wake_up_worker_by_req_id pool_7_9 7).1

woken_pool-IsValid : IsValid woken_pool
woken_pool-IsValid = wake_up-IsValid pool_7_9 7 pool_7_9-IsValid

worker_round-IsValid_example : IsValid (worker_round woken_pool 0 100 all_granted).0
worker_round-IsValid_example =
    worker_round-IsValid woken_pool 0 100 all_granted (omega arith) woken_pool-IsValid

-- A worker that holds the three tasks.
abbrev loaded : WorkerThread ℕ ℕ
loaded = record (fresh_worker 0) {
  state = idle;
  queue = queued_task 3 9 30 ∷ tasks_of_7;
  queue_size = 3;
}

worker_queue_pop_by_req-Pops_example :
    Pops 7 loaded all_granted (worker_queue_pop_by_req loaded 7 all_granted)
worker_queue_pop_by_req-Pops_example = worker_queue_pop_by_req-Pops 7 loaded all_granted refl

cancel_in_worker_queue-Cancels_example :
    let (n, w', m') = cancel_in_worker_queue loaded 7 all_granted in
    Cancels 7 loaded all_granted n w' m'
cancel_in_worker_queue-Cancels_example =
    cancel_in_worker_queue-Cancels 7 loaded all_granted refl (omega arith)

-- The cancellation takes two tasks out and leaves the third.
cancel_7 : cancel_in_worker_queue loaded 7 all_granted ≡ (
  2,
  record loaded { queue = queued_task 3 9 30 ∷ []; queue_size = 1 },
  record all_granted { frees = 6 },
)
unfolding cancel_in_worker_queue cancel_loop
cancel_7 = refl

build_batch_nodes-Builds_example :
    Builds 7 none none idle_pool (user_task 7 1 ∷ user_task 7 2 ∷ []) [] [] all_granted (
      build_batch_nodes idle_pool
        (user_task 7 1 ∷ user_task 7 2 ∷ [])
        7
        none
        none
        []
        []
        all_granted)
build_batch_nodes-Builds_example =
    build_batch_nodes-Builds 7 none none idle_pool (user_task 7 1 ∷ user_task 7 2 ∷ []) [] []
      all_granted

wake_up-wake_up_example :
    let (first, p1) = thread_pool_wake_up_worker_by_req_id pool_7_9 7 in
    let (second, p2) = thread_pool_wake_up_worker_by_req_id p1 9 in
    (first ≡ 0)
    × (second ≡ 0)
    × ((j : ℕ) → p2.workers j ≡ (thread_pool_wake_up_worker_by_req_id pool_7_9 9).1.workers j)
wake_up-wake_up_example =
    wake_up-wake_up pool_7_9 7 9 (context 7 2) (context 9 1) found_7 found_9 refl

abbrev pool_0 : ThreadPool ℕ ℕ
pool_0 = with_tasks idle_pool 0 1 (queued_task 1 0 10 ∷ [])

found_0 : find_req_context pool_0 0 ≡ some (context 0 1)
unfolding find_req_context find_in hash_req_id insert_req_context
found_0 = refl

alive_0 : pool_0.is_destroying ≡ false
unfolding insert_req_context
alive_0 = refl

wake_up_zero_example :
    let (ret, p1) = thread_pool_wake_up_worker_by_req_id pool_0 0 in
    (ret ≡ 0) × (worker_round p1 0 100 all_granted ≡ (p1, 100, all_granted))
wake_up_zero_example = wake_up_zero pool_0 (context 0 1) 100 all_granted found_0 alive_0

find-remove_example :
    find_req_context (remove_req_context pool_7_9 7) 9
    ≡ (if 7 == 9 then none else find_req_context pool_7_9 9)
find-remove_example = find-remove pool_7_9 7 9 pool_7_9-IsValid.unique

abbrev threads : ℕ → ℕ × ℕ
threads i = (0, i + 1)

abbrev new_pool : ThreadPool ℕ ℕ
new_pool = (create_workers_from threads fresh_pool 0 worker_count).1

new_pool-created : (thread_pool_init threads 100 all_granted).0 ≡ some new_pool
unfolding thread_pool_init create_workers_from create_worker
new_pool-created = refl

thread_pool_init-IsEmpty_example : IsEmpty new_pool × IsValid new_pool
thread_pool_init-IsEmpty_example =
    thread_pool_init-IsEmpty threads 100 all_granted new_pool new_pool-created

tasks_at_0 : count_if (has_req 7) (pool_7_9.workers 0).queue ≡ 2
unfolding insert_req_context attach_nodes_to_worker
tasks_at_0 = refl

-- Two wake-ups end request 7.
serve-Ends_example :
    Ends pool_7_9 7 (context 7 2) 100 all_granted (serve 2 pool_7_9 7 0 100 all_granted)
serve-Ends_example =
    serve-Ends pool_7_9 pool_7_9-IsValid 7 (context 7 2) found_7 (omega arith) tasks_at_0 100
      all_granted

-- Its two tasks add 10 and 20 to the state.
served_state : (serve 2 pool_7_9 7 0 100 all_granted).1 ≡ 130
unfolding serve thread_pool_wake_up_worker_by_req_id worker_round worker_queue_pop_by_req
    unlink_first run_popped worker_process_task internal_task_wrapper count_down finish_request
    store_pending store_in remove_req_context remove_in find_req_context find_in hash_req_id
    insert_req_context attach_nodes_to_worker
served_state = refl
