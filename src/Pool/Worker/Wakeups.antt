-- ===== src/Pool/Worker/Wakeups.antt =====
-- Wake-ups of src/os_transport_thread_pool.c that do not reach a task: `pending_req` holds one request
-- at a time, and 0 in it means that there is none.
use os_transport.Base.{◌∙◌, ==_refl, ℕ, ◌≡◌, refl, false, some, arith}
use os_transport.Memory.{Memory}
use os_transport.Pool.{RequestContext, ThreadPool, set_worker}
use os_transport.Pool.Requests.{find_req_context}
use os_transport.Pool.Worker.{worker_round, thread_pool_wake_up_worker_by_req_id}
use os_transport.Pool.Accounting.{find-set_worker}
use os_transport.Pool.Worker.Progress.{wake-found}

module _ {A S : Type 0} where
  -- Two wake-ups for requests that are bound to one worker, with no round of the worker between them:
  -- both return 0, and they leave every worker as the second alone would. The first is lost.
  pub wake_up-wake_up :
      (p : ThreadPool A S) (r q : ℕ) (c d : RequestContext A S)
      → find_req_context p r ≡ some c
      → find_req_context p q ≡ some d
      → c.worker_idx ≡ d.worker_idx
      → let (first, p1) = thread_pool_wake_up_worker_by_req_id p r in
        let (second, p2) = thread_pool_wake_up_worker_by_req_id p1 q in
        (first ≡ 0)
        × (second ≡ 0)
        × ((j : ℕ) → p2.workers j ≡ (thread_pool_wake_up_worker_by_req_id p q).1.workers j)
  wake_up-wake_up p r q c d fr fq same =
      let w = record (p.workers c.worker_idx) { pending_req = r } in
      let p1 = set_worker p c.worker_idx w in
      rw
        (
          wake-found p r c fr,
          wake-found p1 q d (find-set_worker p c.worker_idx w q ∙ fq),
          wake-found p q d fq,
        )
        (refl, refl, λ j. rw (same, ==_refl d.worker_idx) (ground arith))

  -- A wake-up for the request 0 with a context, in a pool that is not being destroyed, returns 0, but
  -- the round that the worker makes then changes nothing: no task of the request runs.
  pub wake_up_zero :
      (p : ThreadPool A S) (ctx : RequestContext A S) (s : S) (m : Memory)
      → find_req_context p 0 ≡ some ctx
      → p.is_destroying ≡ false
      → let (ret, p1) = thread_pool_wake_up_worker_by_req_id p 0 in
        (ret ≡ 0) × (worker_round p1 ctx.worker_idx s m ≡ (p1, s, m))
  wake_up_zero p ctx s m found alive = rw (wake-found p 0 ctx found) (
    refl,
    quiet_round
        (set_worker p ctx.worker_idx (record (p.workers ctx.worker_idx) { pending_req = 0 }))
        ctx.worker_idx s m (rw (==_refl ctx.worker_idx)) alive,
  )
    where
      quiet_round :
          (q : ThreadPool A S) (i : ℕ) (s : S) (m : Memory)
          → (q.workers i).pending_req ≡ 0
          → q.is_destroying ≡ false
          → worker_round q i s m ≡ (q, s, m)
      quiet_round q i s m quiet alive = unfold worker_round in ground arith
