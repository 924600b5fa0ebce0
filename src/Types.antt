-- ===== src/Types.antt =====
-- The structures of include/os_transport.h, include/os_transport_internal.h and
-- include/os_transport_urma.h that the components hand to one another. A pointer to an object of
-- URMA or CUDA is a number, and 0 is NULL; an integer field is a number below its type's modulus.
use os_transport.Base.{ℕ, ◌*◌, Bool}
use os_transport.UserData.{UserData}

-- DEFAULT_CHUNK_SIZE
abbrev pub default_chunk_size : ℕ
default_chunk_size = 2 * 1024 * 1024

-- ost_buffer_info_t
pub record BufferInfo : Type 0 where
  pub addr : ℕ
  pub tseg : ℕ

-- ost_device_info_t
pub record DeviceInfo : Type 0 where
  pub jfr : ℕ
  pub dst : ℕ
  pub stream : ℕ
  pub event : ℕ

-- urma_jetty_info_t
pub record JettyInfo : Type 0 where
  pub jfs : ℕ
  pub jetty : ℕ
  pub tjetty : ℕ
  pub jetty_mode : ℕ

-- os_transport_cfg_t, without the reserved bytes
pub record TransportCfg : Type 0 where
  pub urma_event_mode : Bool
  pub worker_thread_num : ℕ
  pub jfce : ℕ
  pub jfc : ℕ

-- chunk_info_t
pub record ChunkInfo : Type 0 where
  pub src : ℕ
  pub dst : ℕ
  pub len : ℕ

-- urma_write_info_t
pub record WriteInfo : Type 0 where
  pub jfs : ℕ
  pub jetty : ℕ
  pub target_jfr : ℕ
  pub dst_tseg : ℕ
  pub src_tseg : ℕ
  pub flag : ℕ
  pub user_ctx_server : UserData
  pub user_ctx_client : UserData

-- urma_recv_info_t
pub record RecvInfo : Type 0 where
  pub jfr : ℕ
  pub local_tseg : ℕ
  pub device_info : DeviceInfo
  pub request_id : ℕ
