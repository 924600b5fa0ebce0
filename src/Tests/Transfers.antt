-- ===== src/Tests/Transfers.antt =====
-- The chunks, the words and the waiting caller on concrete transfers.
use os_transport.Types.{WriteInfo, TransportCfg, ChunkInfo, JettyInfo, BufferInfo, DeviceInfo}
use os_transport.UserData.{bs-user_ctx-set_fields, set_fields, bs, user_ctx}
use os_transport.Pool.{
  worker_count, set_worker, QueuedTask, WorkerThread, RequestContext, ThreadPool,
}
use os_transport.Sync.{TaskGroup, TaskSync, zero_sync, wait_for_task_complete}
use os_transport.Platform.{Platform}
use os_transport.Transport.Tasks.{chunk_type_of, build_write_info, construct_send_task_arg}
use os_transport.Split.{
  chunk_at, fill_chunks, chunk_count, recv_split_chunks, common_split_chunks, send_split_chunks,
}
use os_transport.Transport.{System, Handle, World, TaskArg}
use os_transport.Transport.Request.{wait_and_free_sync, os_transport_wake_up_task}
use os_transport.Transport.Words.{
  send_words, wake_up-sent, wake_up-arrived, user_ctx_of, notify_data_of,
}
use os_transport.Sync.Progress.{wait-mark_all, verdict, mark_all}
use os_transport.Memory.{Holds, Memory}
use os_transport.Pool.Lifecycle.{
  create_worker, create_workers_from, thread_pool_start, thread_pool_init, fresh_pool,
}
use os_transport.Pool.Worker.{internal_task_wrapper, thread_pool_wake_up_worker_by_req_id}
use os_transport.Tests.Pools.{all_granted}
use os_transport.Split.Tiling.{send_split_chunks-IsSplit, recv_split_chunks-IsSplit, IsSplit}
use os_transport.Transport.Lifecycle.Laws.{os_transport_init-InitOutcome, InitOutcome}
use os_transport.Transport.Lifecycle.{
  update_jfc_for_poll, os_transport_reg_jfc, start_pool, os_transport_init,
}
use os_transport.Pool.Accounting.{Changes-IsValid, load, IsValid}
use os_transport.Transport.Register.Laws.{send_tasks-CarryOut, CarryOut}
use os_transport.Transport.Request.Laws.{wait_and_free_sync-WaitOutcome, WaitOutcome}
use os_transport.Pool.Lifecycle.Laws.{IsEmpty-IsValid}
use os_transport.Transport.Register.{TaskFunc, send_tasks}
use os_transport.Pool.Requests.{hash_req_id, find_in, insert_req_context, find_req_context}
use os_transport.Pool.Cancel.{cancelled, cancel_bound, thread_pool_cancel_tasks_by_req}
use os_transport.Pool.Queue.{cancel_loop, cancel_in_worker_queue, attach_nodes_to_worker}
use os_transport.Pool.Submit.Attach.{inserted-Changes}
use os_transport.Base.{
  length, total-zero, none, ◌%◌, some, ◌^◌, ℕ, ◌+◌, ◌<◌, ◌≡◌, refl, true, false, List, [], ◌∷◌,
  arith,
}

abbrev buffer : ℕ → BufferInfo
buffer a = record { addr = a; tseg = 1 }

abbrev device : DeviceInfo
device = record { jfr = 1; dst = 9000000; stream = 3; event = 4 }

-- Five million bytes are three chunks.
three_chunks : send_split_chunks (some (buffer 0)) (some (buffer 7000000)) 5000000 all_granted ≡ (
  some (
    record { src = 0; dst = 7000000; len = 2097152 }
        ∷ record { src = 2097152; dst = 9097152; len = 2097152 }
        ∷ record { src = 4194304; dst = 11194304; len = 805696 }
        ∷ [],
    3,
  ),
  record all_granted { requests = 1; allocs = 1 },
)
unfolding send_split_chunks common_split_chunks chunk_count fill_chunks chunk_at
three_chunks = refl

send_split_chunks-IsSplit_example :
    (chunks : List ChunkInfo) × (num : ℕ) × (m' : Memory) × (send_split_chunks
        (some (buffer 0))
        (some (buffer 7000000))
        5000000
        all_granted
      ≡ (some (chunks, num), m'))
    × IsSplit 0 7000000 5000000 chunks num
    × Holds 1 all_granted m'
send_split_chunks-IsSplit_example =
    send_split_chunks-IsSplit (buffer 0) (buffer 7000000) 5000000 all_granted (omega arith)
      (omega arith) refl

recv_split_chunks-IsSplit_example :
    (chunks : List ChunkInfo) × (num : ℕ) × (m' : Memory) × (recv_split_chunks
        (some (buffer 0))
        (some device)
        5000000
        all_granted
      ≡ (some (chunks, num), m'))
    × IsSplit 0 9000000 5000000 chunks num
    × Holds 1 all_granted m'
recv_split_chunks-IsSplit_example =
    recv_split_chunks-IsSplit (buffer 0) device 5000000 all_granted (omega arith) (omega arith) refl

-- Two tasks of three have succeeded, and the third fails.
wait-mark_all_example :
    wait_for_task_complete
      (mark_all (some (record zero_sync { total_tasks = 3 })) (true ∷ true ∷ false ∷ []))
    ≡ verdict 3 (true ∷ true ∷ false ∷ [])
wait-mark_all_example =
    wait-mark_all (record zero_sync { total_tasks = 3 }) (true ∷ true ∷ false ∷ []) 3 refl refl refl
      (omega arith) (omega arith) (omega arith)

bs-user_ctx-set_fields_example :
    (bs (user_ctx (set_fields 2 65 4096 77)) ≡ set_fields 2 65 4096 77)
    × (user_ctx (set_fields 2 65 4096 77) < 2 ^ 64)
bs-user_ctx-set_fields_example = bs-user_ctx-set_fields 2 65 4096 77

abbrev jetty : JettyInfo
jetty = record { jfs = 1; jetty = 2; tjetty = 3; jetty_mode = 0 }

abbrev chunk : ChunkInfo
chunk = record { src = 0; dst = 7000000; len = 4096 }

-- The chunk 65 of a send.
send_words_example :
    let arg =
      construct_send_task_arg
        (build_write_info jetty (buffer 0) (buffer 7000000) 4096 5 6)
        chunk
        65
        true
        0 in
    (bs (notify_data_of arg) ≡ record {
      chunk_type = chunk_type_of true;
      chunk_id = 65 % 64;
      chunk_size = 4096;
      request_id = 6;
    })
    × (bs (user_ctx_of arg) ≡ record {
      chunk_type = chunk_type_of true;
      chunk_id = 65 % 64;
      chunk_size = 4096;
      request_id = 5;
    })
send_words_example =
    send_words jetty (buffer 0) (buffer 7000000) 4096 5 6 chunk 65 true 0 (omega arith)
      (omega arith) (omega arith)

-- A platform on which every call succeeds; its state counts the posted requests.
abbrev platform : Platform ℕ
platform = record {
  urma_success = 0;
  urma_fail = 1;
  opc_write_with_imm = 1;
  opc_send = 0;
  post_jfs_wr = λ jfs wr n. (0, n + 1);
  post_jetty_send_wr = λ jetty wr n. (0, n + 1);
  post_jfr_wr = λ jfr wr n. (0, n + 1);
  memcpy_async = λ dst src len stream n. (0, n);
  event_record = λ event stream n. n;
  mutex_init = λ n. (0, n);
  cond_init = λ n. (0, n);
}

abbrev pool : ThreadPool TaskArg (World ℕ)
pool = record fresh_pool { is_running = true }

abbrev last_arg : TaskArg
last_arg =
    construct_send_task_arg (build_write_info jetty (buffer 0) (buffer 7000000) 4096 5 6) chunk 2
      true 0

wake_up-arrived_example :
    os_transport_wake_up_task platform pool
      (record { opcode = 1; imm_data = notify_data_of last_arg; user_ctx = 0 })
    ≡ thread_pool_wake_up_worker_by_req_id pool 6
wake_up-arrived_example =
    wake_up-arrived platform pool jetty (buffer 0) (buffer 7000000) 4096 5 6 chunk 2 true 0
      (omega arith) (omega arith) (omega arith) 0

wake_up-sent_example :
    os_transport_wake_up_task platform pool
      (record { opcode = 0; imm_data = 0; user_ctx = user_ctx_of last_arg })
    ≡ thread_pool_wake_up_worker_by_req_id pool 5
wake_up-sent_example =
    wake_up-sent platform pool jetty (buffer 0) (buffer 7000000) 4096 5 6 chunk 2 true 0
      (omega arith) (omega arith) (omega arith) 0 (omega arith)

abbrev idle_func : TaskFunc ℕ
idle_func arg w = (0, w)

abbrev template : WriteInfo
template = record (build_write_info jetty (buffer 0) (buffer 7000000) 4096 5 6) {
  user_ctx_server = record { chunk_type = 0; chunk_id = 0; chunk_size = 0; request_id = 5 };
}

send_tasks-CarryOut_example :
    CarryOut idle_func 0 5
      (chunk ∷ chunk ∷ [])
      (send_tasks 3 1 (chunk ∷ chunk ∷ []) idle_func template 0)
send_tasks-CarryOut_example = send_tasks-CarryOut idle_func 0 template (chunk ∷ chunk ∷ []) 3 1 refl

pool-IsValid : IsValid pool
pool-IsValid = IsEmpty-IsValid pool (record {
  indexed = λ i. refl;
  queues = λ i. refl;
  sizes = λ i. refl;
  quiet = λ i. refl;
  chains = λ i. refl;
})

abbrev group : TaskGroup
group = record { first_request_id = 5; task_num = 1 }

-- A process with one request, of which the one task has failed.
abbrev failed_sync : TaskSync
failed_sync = record zero_sync {
  request_completed = true;
  total_tasks = 1;
  task_group = some group;
}

abbrev system : System ℕ
system = record {
  g_inited = true;
  memory = all_granted;
  world = record { net = 0; syncs = λ a. failed_sync; next_sync = 1 };
}

abbrev handle : Handle ℕ
handle = record { urma_ctx = 1; worker_thread_num = 4; urma_event_mode = false; thread_pool = none }

-- The pool with the task of that request at worker 0.
abbrev waiting_task : QueuedTask TaskArg (World ℕ)
waiting_task = record {
  task_id = 1;
  request_id = 5;
  task_func = internal_task_wrapper;
  task_arg = record {
    user_func = idle_func;
    user_arg = last_arg;
    complete_cb = none;
    user_data = none;
    task_id = 1;
    request_id = 5;
    success = true;
  };
  is_completed = false;
  free_task_self = false;
}

abbrev at_5 : WorkerThread TaskArg (World ℕ)
at_5 = attach_nodes_to_worker (pool.workers 0) (waiting_task ∷ []) 1

abbrev context_5 : RequestContext TaskArg (World ℕ)
context_5 = record {
  request_id = 5;
  worker_idx = 0;
  pending_count = 1;
  batch_cb = none;
  batch_user_data = none;
}

abbrev pool_5 : ThreadPool TaskArg (World ℕ)
pool_5 = insert_req_context (set_worker pool 0 at_5) context_5

load-pool : load pool ≡ 0
load-pool = total-zero (λ w. length w.queue) worker_count pool.workers (λ i. refl)

absent_5 : find_req_context pool 5 ≡ none
unfolding find_req_context find_in hash_req_id
absent_5 = refl

pool_5-IsValid : IsValid pool_5
pool_5-IsValid = Changes-IsValid pool 0 at_5 pool_5 (omega arith) pool-IsValid (
    inserted-Changes pool pool-IsValid 0 (omega arith) 5 1 (waiting_task ∷ []) refl (omega arith)
      (λ k. ground arith) (omega (arith, load-pool)) context_5 absent_5 refl refl refl)

pool_5-running : pool_5.is_running ≡ true
unfolding insert_req_context
pool_5-running = refl

wait_and_free_sync-WaitOutcome_example :
    WaitOutcome pool_5 pool_5-IsValid 5 system 0
      (wait_and_free_sync (some (record handle { thread_pool = some pool_5 })) (some 0) system)
wait_and_free_sync-WaitOutcome_example =
    wait_and_free_sync-WaitOutcome handle 0 system pool_5 group refl pool_5-IsValid pool_5-running

-- The cancellation that the call makes takes the task out.
withdrawn_5 : (thread_pool_cancel_tasks_by_req (some pool_5) 5 all_granted).0 ≡ 1
unfolding thread_pool_cancel_tasks_by_req cancel_bound cancelled cancel_in_worker_queue cancel_loop
    find_req_context find_in hash_req_id insert_req_context attach_nodes_to_worker
withdrawn_5 = refl

abbrev config : TransportCfg
config = record { urma_event_mode = true; worker_thread_num = 4; jfce = 1; jfc = 2 }

os_transport_init-InitOutcome_example :
    InitOutcome config
      (record system { g_inited = false })
      (os_transport_init
        (λ i. (0, i + 1))
        1
        (some config)
        true
        (record system { g_inited = false }))
os_transport_init-InitOutcome_example =
    os_transport_init-InitOutcome (λ i. (0, i + 1)) 1 config (record system { g_inited = false })

-- The first initialisation succeeds, where the threads and the memory are granted.
init_succeeds :
    (os_transport_init
      (λ i. (0, i + 1))
      1
      (some config)
      true
      (record system { g_inited = false })).0
    ≡ 0
unfolding os_transport_init start_pool os_transport_reg_jfc update_jfc_for_poll thread_pool_init
    thread_pool_start create_workers_from create_worker
init_succeeds = refl
