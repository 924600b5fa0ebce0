-- ===== src/Urma.antt =====
-- src/os_transport_urma.c: the work requests of a chunk.
use os_transport.Base.{ℕ, ◌==◌, if◌then◌else◌}
use os_transport.Platform.{Platform, JfsWr, JfrWr}
use os_transport.Types.{WriteInfo, RecvInfo, ChunkInfo}
use os_transport.UserData.{user_ctx}

-- The request that `urma_write_with_notify` builds.
unfoldable pub write_request : WriteInfo → ChunkInfo → JfsWr
write_request info chunk = record {
  complete_enable = 1;
  inline_flag = 0;
  tjetty = info.target_jfr;
  user_ctx = user_ctx info.user_ctx_server;
  src = record { addr = chunk.src; len = chunk.len; tseg = info.src_tseg };
  dst = record { addr = chunk.dst; len = chunk.len; tseg = info.dst_tseg };
  notify_data = user_ctx info.user_ctx_client;
}

-- The request that `urma_recv_with_notify` builds.
unfoldable pub recv_request : RecvInfo → ChunkInfo → JfrWr
recv_request info chunk = record {
  src = record { addr = chunk.src; len = chunk.len; tseg = info.local_tseg };
  user_ctx = info.request_id;
}

module _ {N : Type 0} (pf : Platform N) where
  unfoldable pub urma_write_with_notify : WriteInfo → ChunkInfo → N → ℕ × N
  urma_write_with_notify info chunk net =
      if info.jfs == 0
      then if info.jetty == 0
        then (pf.urma_fail, net)
        else pf.post_jetty_send_wr info.jetty (write_request info chunk) net
      else pf.post_jfs_wr info.jfs (write_request info chunk) net

  unfoldable pub urma_recv_with_notify : RecvInfo → ChunkInfo → N → ℕ × N
  urma_recv_with_notify info chunk net =
      if info.jfr == 0
      then (pf.urma_fail, net)
      else pf.post_jfr_wr info.jfr (recv_request info chunk) net
