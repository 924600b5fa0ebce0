-- ===== src/Transport/Tasks.antt =====
-- src/os_transport.c, one chunk: build_write_info, construct_send_task_arg, construct_recv_task_arg,
-- construct_worker_task, do_send_chunk_for_worker, do_recv_chunk_for_worker, send_task_worker_func,
-- recv_task_worker_func, send_single_chunk.
use os_transport.Base.{none, some, some, ℕ, Bool, true, false, ◌==◌, if◌then◌else◌, minus_one}
use os_transport.UserData.{set_fields, not_split, middle_chunk, last_chunk}
use os_transport.Types.{BufferInfo, JettyInfo, ChunkInfo, WriteInfo, RecvInfo}
use os_transport.Platform.{Platform}
use os_transport.Urma.{urma_write_with_notify}
use os_transport.Sync.{mark_task_group_completed}
use os_transport.Pool.{ThreadPoolTask}
use os_transport.Transport.{World, TaskArg, send_arg, recv_arg, set_sync}

-- The two words that travel with a chunk sent alone.
unfoldable pub build_write_info :
    JettyInfo → (local_src remote_dst : BufferInfo) → (len server_key client_key : ℕ) → WriteInfo
build_write_info jetty_info local_src remote_dst len server_key client_key = record {
  jfs = jetty_info.jfs;
  jetty = jetty_info.jetty;
  target_jfr = jetty_info.tjetty;
  dst_tseg = remote_dst.tseg;
  src_tseg = local_src.tseg;
  flag = 0;
  user_ctx_server = set_fields not_split 0 len server_key;
  user_ctx_client = set_fields not_split 0 len client_key;
}

abbrev pub chunk_type_of : (is_last_chunk : Bool) → ℕ
chunk_type_of true = last_chunk
chunk_type_of false = middle_chunk

-- The words of one chunk of several, with the request ids of the template.
unfoldable pub construct_send_task_arg :
    WriteInfo → ChunkInfo → (chunk_id : ℕ) → (is_last_chunk : Bool) → (sync : ℕ) → TaskArg
construct_send_task_arg info chunk chunk_id is_last_chunk sync =
    send_arg sync chunk is_last_chunk (record info {
      user_ctx_server =
          set_fields (chunk_type_of is_last_chunk) chunk_id chunk.len
            info.user_ctx_server.request_id;
      user_ctx_client =
          set_fields (chunk_type_of is_last_chunk) chunk_id chunk.len
            info.user_ctx_client.request_id;
    })

unfoldable pub construct_recv_task_arg :
    RecvInfo → ChunkInfo → (is_last_chunk : Bool) → (sync : ℕ) → TaskArg
construct_recv_task_arg info chunk is_last_chunk sync = recv_arg sync chunk is_last_chunk info

module _ {N : Type 0} where
  unfoldable pub construct_worker_task :
      (task_id request_id : ℕ)
      → (TaskArg → World N → ℕ × World N)
      → TaskArg
      → ThreadPoolTask TaskArg (World N)
  construct_worker_task task_id request_id task_func task_arg = record {
    task_id = task_id;
    request_id = request_id;
    task_func = task_func;
    task_arg = task_arg;
    is_completed = false;
    free_task_self = false;
  }

  -- A mark on the sync object at an address.
  abbrev pub mark_at : World N → ℕ → Bool → World N
  mark_at w a good = elim (mark_task_group_completed (some (w.syncs a)) good) [
    | none ↦ w
    | some sync ↦ set_sync w a sync
  ]

  module _ (pf : Platform N) where
    unfoldable pub do_send_chunk_for_worker : WriteInfo → ChunkInfo → N → ℕ × N
    do_send_chunk_for_worker info chunk net = urma_write_with_notify pf info chunk net

    unfoldable pub do_recv_chunk_for_worker : RecvInfo → ChunkInfo → N → ℕ × N
    do_recv_chunk_for_worker info chunk net =
        pf.memcpy_async chunk.dst chunk.src chunk.len info.device_info.stream net

    -- The argument is always that of a send; on another the code would read a wrong structure.
    unfoldable pub send_task_worker_func : TaskArg → World N → ℕ × World N
    send_task_worker_func (send_arg sync chunk is_last_chunk info) w =
        let (ret, net) = do_send_chunk_for_worker info chunk w.net in
        (ret, mark_at (record w { net = net }) sync (ret == 0))
    send_task_worker_func (recv_arg sync chunk is_last_chunk info) w = (minus_one, w)

    -- After the last chunk the event of the stream is recorded.
    unfoldable pub recv_task_worker_func : TaskArg → World N → ℕ × World N
    recv_task_worker_func (recv_arg sync chunk is_last_chunk info) w =
        let (ret, net) = do_recv_chunk_for_worker info chunk w.net in
        let w' = mark_at (record w { net = net }) sync (ret == 0) in
        let recorded = pf.event_record info.device_info.event info.device_info.stream w'.net in
        (ret, if is_last_chunk then record w' { net = recorded } else w')
    recv_task_worker_func (send_arg sync chunk is_last_chunk info) w = (minus_one, w)

    unfoldable pub send_single_chunk :
        JettyInfo
        → (local_src remote_dst : BufferInfo) → (len server_key client_key : ℕ) → N
        → ℕ × N
    send_single_chunk jetty_info local_src remote_dst len server_key client_key net =
        let info = build_write_info jetty_info local_src remote_dst len server_key client_key in
        let chunk : ChunkInfo = record { src = local_src.addr; dst = remote_dst.addr; len = len } in
        let (ret, net') = urma_write_with_notify pf info chunk net in
        if ret == pf.urma_success then (0, net') else (minus_one, net')
