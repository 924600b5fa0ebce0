-- ===== src/Transport/Lifecycle.antt =====
-- src/os_transport.c, the life of the library: update_jfc_for_poll, os_transport_reg_jfc,
-- os_transport_init, os_transport_destroy. `none` for a pointer is NULL.
pub mod Laws
use os_transport.Base.{ℕ, Bool, true, false, Option, none, some, ◌==◌, if◌then◌else◌, minus_one}
use os_transport.Memory.{Memory, malloc, free}
use os_transport.Types.{TransportCfg}
use os_transport.Pool.{ThreadPool}
use os_transport.Pool.Lifecycle.{thread_pool_init, thread_pool_start, thread_pool_destroy}
use os_transport.Transport.{World, TaskArg, Handle, System}

-- What the registration reads of a handle: its `urma_event_mode` and its pool.
abbrev pub Polled : Type 0 → Type 0
Polled N = Bool × ThreadPool TaskArg (World N)

module _ {N : Type 0} where
  unfoldable pub update_jfc_for_poll :
      (jfce jfc : ℕ)
      → (urma_event_mode : Bool) → ThreadPool TaskArg (World N)
      → ℕ × ThreadPool TaskArg (World N)
  update_jfc_for_poll jfce jfc urma_event_mode pool = (
    0,
    record pool {
      urma_info = record { jfce = jfce; jfc = jfc; urma_event_mode = urma_event_mode };
    },
  )

  abbrev pub pool_of : Option (Polled N) → Option (ThreadPool TaskArg (World N))
  pool_of none = none
  pool_of (some h) = some h.1

  -- The pool of the handle is there; the code does not test it. It returns the handle after the call.
  unfoldable pub os_transport_reg_jfc :
      (jfce jfc : ℕ) → (g_inited : Bool) → (handle : Option (Polled N)) → ℕ × Option (Polled N)
  os_transport_reg_jfc jfce jfc false handle = (minus_one, handle)
  os_transport_reg_jfc jfce jfc true none = (minus_one, none)
  os_transport_reg_jfc jfce jfc true (some (urma_event_mode, pool)) =
      let (ret, pool') = update_jfc_for_poll jfce jfc urma_event_mode pool in
      if ret == 0
      then (0, some (urma_event_mode, pool'))
      else (minus_one, some (urma_event_mode, pool'))

  -- The end of `os_transport_init` on a failure: `g_inited = 0` and the handle freed.
  abbrev pub init_fail : System N → World N → Memory → ℕ × Option (Handle N) × System N
  init_fail sys w m =
      (minus_one, none, record sys { g_inited = false; world = w; memory = free 1 m })

  -- With the pool made: the poller's data, the start, the handle.
  unfoldable pub start_pool :
      (urma_ctx : ℕ)
      → TransportCfg
      → System N
      → Option (ThreadPool TaskArg (World N)) × World N × Memory
      → ℕ × Option (Handle N) × System N
  start_pool urma_ctx cfg sys (none, w, m) = init_fail sys w m
  start_pool urma_ctx cfg sys (some pool, w, m) =
      let (ret, handle) =
        os_transport_reg_jfc cfg.jfce cfg.jfc sys.g_inited (some (cfg.urma_event_mode, pool)) in
      let (started, pool2) = thread_pool_start (pool_of handle) in
      let (w', m') = thread_pool_destroy pool2 w m in
      if ret == 0
      then if started == 0
        then (
          0,
          some (record {
            urma_ctx = urma_ctx;
            worker_thread_num = cfg.worker_thread_num;
            urma_event_mode = cfg.urma_event_mode;
            thread_pool = pool2;
          }),
          record sys { world = w; memory = m },
        )
        else init_fail sys w' m'
      else init_fail sys w m

  -- `has_handle`: the pointer `handle` for the result is not NULL.
  unfoldable pub os_transport_init :
      (pthread_create : ℕ → ℕ × ℕ)
      → (urma_ctx : ℕ) → Option TransportCfg
      → (has_handle : Bool) → System N
      → ℕ × Option (Handle N) × System N
  os_transport_init pthread_create urma_ctx none has_handle sys = (minus_one, none, sys)
  os_transport_init pthread_create urma_ctx (some cfg) false sys = (minus_one, none, sys)
  os_transport_init pthread_create urma_ctx (some cfg) true sys =
      let (granted, m) = malloc sys.memory in
      if sys.g_inited
      then (minus_one, none, sys)
      else if granted
      then start_pool urma_ctx cfg (record sys { g_inited = true })
          (thread_pool_init pthread_create sys.world m)
      else (minus_one, none, record sys { memory = m })

  -- On success the handle is freed.
  unfoldable pub os_transport_destroy :
      Option (Handle N) → System N → ℕ × Option (Handle N) × System N
  os_transport_destroy none sys = (minus_one, none, sys)
  os_transport_destroy (some h) sys =
      let (w, m) = thread_pool_destroy h.thread_pool sys.world sys.memory in
      if sys.g_inited
      then (0, none, record sys { g_inited = false; world = w; memory = free 1 m })
      else (minus_one, some h, sys)
