-- ===== src/Transport/Request.antt =====
-- src/os_transport.c, the requests of a caller: os_transport_send, os_transport_recv,
-- os_transport_wake_up_task, wait_and_free_sync, with validate_send_input, validate_recv_input,
-- free_task_group_resource and free_sync_owned_resources. `none` for an argument is NULL.
pub mod Laws
use os_transport.Base.{
  ℕ, ◌+◌, Bool, true, false, Option, none, some, List, [], ◌∷◌, ◌==◌, leb, if◌then◌else◌, minus_one,
  is_null,
}
use os_transport.Memory.{Memory, free}
use os_transport.UserData.{UserData, bs}
use os_transport.Types.{
  BufferInfo, DeviceInfo, JettyInfo, ChunkInfo, WriteInfo, RecvInfo, default_chunk_size,
}
use os_transport.Split.{send_split_chunks, recv_split_chunks}
use os_transport.Platform.{Platform, Cr}
use os_transport.Urma.{urma_write_with_notify, urma_recv_with_notify}
use os_transport.Sync.{TaskSync, wait_for_task_complete}
use os_transport.Pool.{ThreadPool}
use os_transport.Pool.Worker.{thread_pool_wake_up_worker_by_req_id}
use os_transport.Pool.Cancel.{thread_pool_cancel_tasks_by_req}
use os_transport.Transport.{TaskArg, World, Handle, System, set_sync, send_task, recv_task}
use os_transport.Transport.Tasks.{
  build_write_info, send_single_chunk, send_task_worker_func, recv_task_worker_func,
}
use os_transport.Transport.Register.{write_info, recv_info, register_tasks_and_bind_chunks}

-- The return value, `*ret_sync_handle`, the handle and the process after a request.
abbrev pub Answer : Type 0 → Type 0
Answer N = ℕ × Option ℕ × Handle N × System N

-- The blocks that `free_sync_owned_resources` frees: the task group with its two arrays, the
-- chunks, the object.
unfoldable pub owned_blocks : TaskSync → ℕ
owned_blocks sync =
    (if is_null sync.task_group then 0 else 3) + (if is_null sync.chunks then 0 else 1) + 1

module _ {N : Type 0} where
  -- `sync_handle->request_completed = 1`, under the lock.
  abbrev pub complete_at : World N → ℕ → World N
  complete_at w a = set_sync w a (record (w.syncs a) { request_completed = true })

  module _ (pf : Platform N) (arg_size : ℕ) where
    -- The first chunk of a registered request is sent by the caller.
    unfoldable pub send_first :
        Handle N
        → System N
        → WriteInfo
        → List ChunkInfo
        → Option ℕ × Handle N × World N × Memory
        → Answer N
    send_first h sys info chunks (none, h1, w1, m1) =
        (minus_one, none, h1, record sys { world = w1; memory = free 1 m1 })
    send_first h sys info [] (some sync, h1, w1, m1) =
        (0, some sync, h1, record sys { world = w1; memory = m1 })
    send_first h sys info (c ∷ cs) (some sync, h1, w1, m1) =
        let (ret, net) = urma_write_with_notify pf info c w1.net in
        let w2 = record w1 { net = net } in
        if ret == pf.urma_success
        then (0, some sync, h1, record sys { world = w2; memory = m1 })
        else (minus_one, some sync, h1, record sys { world = complete_at w2 sync; memory = m1 })

    -- The path of a transfer of several chunks.
    unfoldable pub send_chunks :
        Handle N
        → System N
        → JettyInfo
        → (local_src remote_dst : BufferInfo) → (server_key client_key : ℕ)
        → Option (List ChunkInfo × ℕ) × Memory
        → Answer N
    send_chunks h sys jetty src dst server_key client_key (none, m) =
        (minus_one, none, h, record sys { memory = m })
    send_chunks h sys jetty src dst server_key client_key (some ([], num), m) =
        (minus_one, none, h, record sys { memory = m })
    send_chunks h sys jetty src dst server_key client_key (some (c ∷ cs, num), m) =
        let info = build_write_info jetty src dst c.len server_key client_key in
        send_first h sys info (c ∷ cs) (
          register_tasks_and_bind_chunks pf arg_size h (c ∷ cs) num send_task
            (send_task_worker_func pf) (write_info info) sys.world m)

    -- `os_transport_send` with every pointer at hand.
    unfoldable pub send_request :
        Handle N
        → System N
        → JettyInfo
        → (local_src remote_dst : BufferInfo) → (len server_key client_key : ℕ) → Answer N
    send_request h sys jetty src dst len server_key client_key =
        let (ret, net) =
          send_single_chunk pf jetty src dst len server_key client_key sys.world.net in
        if len == 0
        then (minus_one, none, h, sys)
        else if sys.g_inited
        then if leb len default_chunk_size
          then (ret, none, h, record sys { world = record (sys.world) { net = net } })
          else send_chunks h sys jetty src dst server_key client_key
              (send_split_chunks (some src) (some dst) len sys.memory)
        else (minus_one, none, h, sys)

    -- `has_ret`: the pointer `ret_sync_handle` is not NULL.
    unfoldable pub os_transport_send :
        Option (Handle N)
        → System N
        → Option JettyInfo
        → (local_src remote_dst : Option BufferInfo) → (len server_key client_key : ℕ)
        → (has_ret : Bool) → ℕ × Option ℕ × Option (Handle N) × System N
    os_transport_send (some h) sys (some jetty) (some src) (some dst) len server_key client_key
          true =
        let (ret, sync, h', sys') = send_request h sys jetty src dst len server_key client_key in
        (ret, sync, some h', sys')
    os_transport_send handle sys _ _ _ len server_key client_key _ = (minus_one, none, handle, sys)

    -- The loop that posts a receive for each chunk; it stops at the first that fails.
    unfoldable pub post_receives : RecvInfo → List ChunkInfo → N → Bool × N
    post_receives info [] net = (true, net)
    post_receives info (c ∷ cs) net =
        let (ret, net') = urma_recv_with_notify pf info c net in
        let rest = post_receives info cs net' in
        if ret == pf.urma_success then rest else (false, net')

    unfoldable pub receive_all :
        System N → RecvInfo → List ChunkInfo → Option ℕ × Handle N × World N × Memory → Answer N
    receive_all sys info chunks (none, h1, w1, m1) =
        (minus_one, none, h1, record sys { world = w1; memory = free 1 m1 })
    receive_all sys info chunks (some sync, h1, w1, m1) =
        let (good, net) = post_receives info chunks w1.net in
        let w2 = record w1 { net = net } in
        if good
        then (0, some sync, h1, record sys { world = w2; memory = m1 })
        else (minus_one, some sync, h1, record sys { world = complete_at w2 sync; memory = m1 })

    unfoldable pub recv_chunks :
        Handle N → System N → RecvInfo → Option (List ChunkInfo × ℕ) × Memory → Answer N
    recv_chunks h sys info (none, m) = (minus_one, none, h, record sys { memory = m })
    recv_chunks h sys info (some (chunks, num), m) = receive_all sys info chunks (
        register_tasks_and_bind_chunks pf arg_size h chunks num recv_task (recv_task_worker_func pf)
          (recv_info info) sys.world m)

    -- `os_transport_recv` with every pointer at hand.
    unfoldable pub recv_request :
        Handle N
        → System N
        → (host_src : BufferInfo) → (device_dst : DeviceInfo) → (len client_key : ℕ) → Answer N
    recv_request h sys host device len client_key =
        let info : RecvInfo = record {
          jfr = device.jfr;
          local_tseg = host.tseg;
          device_info = device;
          request_id = client_key;
        } in
        if len == 0
        then (minus_one, none, h, sys)
        else if sys.g_inited
        then recv_chunks h sys info (recv_split_chunks (some host) (some device) len sys.memory)
        else (minus_one, none, h, sys)

    unfoldable pub os_transport_recv :
        Option (Handle N)
        → System N
        → (host_src : Option BufferInfo) → (device_dst : Option DeviceInfo) → (len client_key : ℕ)
        → (has_ret : Bool) → ℕ × Option ℕ × Option (Handle N) × System N
    os_transport_recv (some h) sys (some host) (some device) len client_key true =
        let (ret, sync, h', sys') = recv_request h sys host device len client_key in
        (ret, sync, some h', sys')
    os_transport_recv handle sys _ _ len client_key _ = (minus_one, none, handle, sys)

  -- The word of a completion: the immediate data of a write that arrived, or the context of a send.
  unfoldable pub completion_data : Platform N → Cr → Option UserData
  completion_data pf cr =
      if cr.opcode == pf.opc_write_with_imm
      then some (bs cr.imm_data)
      else if cr.opcode == pf.opc_send
      then some (bs cr.user_ctx)
      else none

  -- The handle has a pool; the code does not test it.
  unfoldable pub os_transport_wake_up_task :
      Platform N → ThreadPool (TaskArg) (World N) → Cr → ℕ × ThreadPool TaskArg (World N)
  os_transport_wake_up_task pf pool cr = elim (completion_data pf cr) [
    | none ↦ (minus_one, pool)
    | some d ↦ thread_pool_wake_up_worker_by_req_id pool d.request_id
  ]

  -- `none`: the caller waits. The handle and the sync object may be NULL.
  unfoldable pub wait_and_free_sync :
      Option (Handle N) → Option ℕ → System N → Option (ℕ × Option (Handle N) × System N)
  wait_and_free_sync none sync sys = some (minus_one, none, sys)
  wait_and_free_sync (some h) none sys = some (minus_one, some h, sys)
  wait_and_free_sync (some h) (some a) sys =
      let sync = sys.world.syncs a in
      elim sync.task_group [
        | none ↦ some (minus_one, some h, sys)
        | some group ↦ elim (wait_for_task_complete (some sync)) [
          | none ↦ none
          | some ret ↦
              let (n, pool, m) =
                thread_pool_cancel_tasks_by_req h.thread_pool group.first_request_id sys.memory in
              if ret == 0
              then some (ret, some h, record sys { memory = free (owned_blocks sync) sys.memory })
              else some (
                ret,
                some (record h { thread_pool = pool }),
                record sys { memory = free (owned_blocks sync) m },
              )
        ]
      ]
