-- ===== src/Transport/Words.antt =====
-- The words that a chunk of src/os_transport.c carries, from the task that sends it through the work
-- request of src/os_transport_urma.c to the wake-up that its completion causes.
use os_transport.Base.{ap, ◌∙◌, ℕ, ◌%◌, ◌^◌, ◌<◌, ◌≤◌, ◌≡◌, ◌≢◌, Bool, some, ==_ne, ==_refl, arith}
use os_transport.UserData.{UserData, set_fields, bs, bs-user_ctx-set_fields}
use os_transport.Types.{BufferInfo, JettyInfo, ChunkInfo, default_chunk_size}
use os_transport.Platform.{Platform, Cr}
use os_transport.Urma.{write_request}
use os_transport.Pool.{ThreadPool}
use os_transport.Pool.Worker.{thread_pool_wake_up_worker_by_req_id}
use os_transport.Transport.{World, TaskArg, send_arg, recv_arg}
use os_transport.Transport.Tasks.{build_write_info, construct_send_task_arg, chunk_type_of}
use os_transport.Transport.Request.{completion_data, os_transport_wake_up_task}

-- The data that the receiver of the chunk gets with the completion, by the request that the task
-- posts, and the context that comes back to the sender.
abbrev pub notify_data_of : TaskArg → ℕ
notify_data_of (send_arg sync chunk is_last_chunk info) = (write_request info chunk).notify_data
notify_data_of (recv_arg sync chunk is_last_chunk info) = 0

abbrev pub user_ctx_of : TaskArg → ℕ
user_ctx_of (send_arg sync chunk is_last_chunk info) = (write_request info chunk).user_ctx
user_ctx_of (recv_arg sync chunk is_last_chunk info) = 0

-- The words of a chunk of a send with 32-bit keys, whose length is that of a chunk: the receiver's
-- names the client's key and the sender's the server's key, both name the kind of the chunk and its
-- length, and of its number the remainder modulo 64.
pub send_words :
    (jetty : JettyInfo) (src dst : BufferInfo) (len server_key client_key : ℕ) (chunk : ChunkInfo)
    (id : ℕ) (last : Bool) (sync : ℕ)
    → server_key < 2 ^ 32
    → client_key < 2 ^ 32
    → chunk.len ≤ default_chunk_size
    → let arg =
        construct_send_task_arg
          (build_write_info jetty src dst len server_key client_key)
          chunk
          id
          last
          sync in
      (bs (notify_data_of arg) ≡ record {
        chunk_type = chunk_type_of last;
        chunk_id = id % 64;
        chunk_size = chunk.len;
        request_id = client_key;
      })
      × (bs (user_ctx_of arg) ≡ record {
        chunk_type = chunk_type_of last;
        chunk_id = id % 64;
        chunk_size = chunk.len;
        request_id = server_key;
      })
unfolding construct_send_task_arg build_write_info write_request
send_words jetty src dst len sk ck chunk id last sync hs hc hl =
    rw
      (
        (bs-user_ctx-set_fields (chunk_type_of last) id chunk.len
            (set_fields 0 0 len ck).request_id).0,
        (bs-user_ctx-set_fields (chunk_type_of last) id chunk.len
            (set_fields 0 0 len sk).request_id).0,
      )
      (unfold set_fields in (ground arith, ground arith))

wake_by :
    {N : Type 0} (pf : Platform N) (pool : ThreadPool TaskArg (World N)) (cr : Cr) (d : UserData)
    → completion_data pf cr ≡ some d
    → os_transport_wake_up_task pf pool cr ≡ thread_pool_wake_up_worker_by_req_id pool d.request_id
unfolding os_transport_wake_up_task
wake_by pf pool cr d h = rw (h, os_transport_wake_up_task)

module _ {N : Type 0} (pf : Platform N) (pool : ThreadPool TaskArg (World N)) (jetty : JettyInfo)
    (src dst : BufferInfo) (len server_key client_key : ℕ) (chunk : ChunkInfo) (id : ℕ)
    (last : Bool) (sync : ℕ) (hs : server_key < 2 ^ 32) (hc : client_key < 2 ^ 32)
    (hl : chunk.len ≤ default_chunk_size) where
  abbrev arg : TaskArg
  arg =
      construct_send_task_arg (build_write_info jetty src dst len server_key client_key) chunk id
        last sync

  data-arrived :
      (ctx : ℕ)
      → completion_data pf
          (record { opcode = pf.opc_write_with_imm; imm_data = notify_data_of arg; user_ctx = ctx })
        ≡ some (bs (notify_data_of arg))
  unfolding completion_data
  data-arrived ctx = rw (==_refl pf.opc_write_with_imm)

  data-sent :
      (imm : ℕ)
      → pf.opc_send ≢ pf.opc_write_with_imm
      → completion_data pf
          (record { opcode = pf.opc_send; imm_data = imm; user_ctx = user_ctx_of arg })
        ≡ some (bs (user_ctx_of arg))
  unfolding completion_data
  data-sent imm ne = rw (==_ne pf.opc_send pf.opc_write_with_imm ne, ==_refl pf.opc_send)

  -- The completion of a chunk at the receiver, with the data that the sender's request carried, wakes
  -- the worker of the receive with the client's key: for 32-bit keys and a chunk no longer than a
  -- chunk may be.
  pub wake_up-arrived :
      (ctx : ℕ)
      → os_transport_wake_up_task pf pool
          (record { opcode = pf.opc_write_with_imm; imm_data = notify_data_of arg; user_ctx = ctx })
        ≡ thread_pool_wake_up_worker_by_req_id pool client_key
  wake_up-arrived ctx =
      wake_by pf pool _ _ (data-arrived ctx)
      ∙ ap (λ d. thread_pool_wake_up_worker_by_req_id pool (UserData.request_id d))
          (send_words jetty src dst len server_key client_key chunk id last sync hs hc hl).0

  -- The completion of a chunk at the sender, with the context of its request, wakes the worker of the
  -- send with the server's key, where URMA's two opcodes differ: for 32-bit keys and a chunk no longer
  -- than a chunk may be.
  pub wake_up-sent :
      (imm : ℕ)
      → pf.opc_send ≢ pf.opc_write_with_imm
      → os_transport_wake_up_task pf pool
          (record { opcode = pf.opc_send; imm_data = imm; user_ctx = user_ctx_of arg })
        ≡ thread_pool_wake_up_worker_by_req_id pool server_key
  wake_up-sent imm ne =
      wake_by pf pool _ _ (data-sent imm ne)
      ∙ ap (λ d. thread_pool_wake_up_worker_by_req_id pool (UserData.request_id d))
          (send_words jetty src dst len server_key client_key chunk id last sync hs hc hl).1
