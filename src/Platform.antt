-- ===== src/Platform.antt =====
-- What the program calls and does not implement: URMA (urma_post_jfs_wr and its kin), CUDA
-- (cudaMemcpyAsync, cudaEventRecord) and the initialisation of pthread objects. `N` is the state
-- behind these calls. The model takes a Platform as a parameter and assumes nothing of it; a theorem
-- that needs a value of a status names it as a hypothesis.
use os_transport.Base.{ℕ}

-- urma_sge_t
pub record Sge : Type 0 where
  pub addr : ℕ
  pub len : ℕ
  pub tseg : ℕ

-- The fields of urma_jfs_wr_t and its urma_rw_wr_t that the program sets, one sge on either side.
pub record JfsWr : Type 0 where
  pub complete_enable : ℕ
  pub inline_flag : ℕ
  pub tjetty : ℕ
  pub user_ctx : ℕ
  pub src : Sge
  pub dst : Sge
  pub notify_data : ℕ

-- The fields of urma_jfr_wr_t that the program sets.
pub record JfrWr : Type 0 where
  pub src : Sge
  pub user_ctx : ℕ

-- The fields of urma_cr_t that the program reads.
pub record Cr : Type 0 where
  pub opcode : ℕ
  pub imm_data : ℕ
  pub user_ctx : ℕ

pub record Platform (N : Type 0) : Type 0 where
  pub urma_success : ℕ
  pub urma_fail : ℕ
  pub opc_write_with_imm : ℕ
  pub opc_send : ℕ
  pub post_jfs_wr : (jfs : ℕ) → JfsWr → N → ℕ × N
  pub post_jetty_send_wr : (jetty : ℕ) → JfsWr → N → ℕ × N
  pub post_jfr_wr : (jfr : ℕ) → JfrWr → N → ℕ × N
  pub memcpy_async : (dst src len stream : ℕ) → N → ℕ × N
  pub event_record : (event stream : ℕ) → N → N
  pub mutex_init : N → ℕ × N
  pub cond_init : N → ℕ × N
