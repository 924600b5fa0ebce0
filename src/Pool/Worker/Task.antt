-- ===== src/Pool/Worker/Task.antt =====
-- What worker_process_task of src/os_transport_thread_pool.c makes of the state, of the memory and of
-- the contexts.
use os_transport.Base.{
  inr, inl, Bool-cases, none, Option, true, ◌==◌, ap, arith, ◌∙◌, refl, if◌then◌else◌, ==_refl, ◌<◌,
  ℕ, ◌+◌, ◌-◌, ◌%◌, ◌^◌, ◌≡◌, ◌≢◌, some, ==_ne,
}
use os_transport.Memory.{Memory, free}
use os_transport.Pool.{busy, QueuedTask, RequestContext, ThreadPool, set_worker}
use os_transport.Pool.Requests.{find_req_context}
use os_transport.Pool.Accounting.{settle-SameRest, find-settle, find-set_worker}
use os_transport.Pool.Worker.Laws.{call_back-told, count_down-pool}
use os_transport.Pool.Requests.Laws.{with_pending, IsUnique}
use os_transport.Pool.Contract.{SameRest, told}
use os_transport.Pool.Worker.{finish_request, count_down, worker_process_task}

module _ {A S : Type 0} where
  -- The outside state and the memory after a task `task` of a request with the context `ctx`: what
  -- the task's function leaves, with the task given back, and, if this was the last task, what the
  -- batch callback makes of it, with the context given back.
  abbrev pub after_task : RequestContext A S → QueuedTask A S → S → Memory → S × Memory
  after_task ctx task s m =
      let (ret, (s', m')) = task.task_func task.task_arg (s, m) in
      if ctx.pending_count == 1
      then (told ctx.batch_cb 0 true ctx.batch_user_data s', free 1 (free 1 m'))
      else (s', free 1 m')

  count_down-world :
      (p : ThreadPool A S) (ctx : RequestContext A S) (r : ℕ) (s : S) (m : Memory)
      → 0 < ctx.pending_count
      → ctx.pending_count < 2 ^ 32
      → let (p', s', m') = count_down p (some ctx) r s m in
        (s'
          ≡ (if ctx.pending_count == 1 then told ctx.batch_cb 0 true ctx.batch_user_data s else s))
        × (m' ≡ (if ctx.pending_count == 1 then free 1 m else m))
  unfolding count_down finish_request
  count_down-world p ctx r s m pos small =
      (ground (arith, call_back-told ctx.batch_cb 0 true ctx.batch_user_data s), ground arith)

  pub task-world :
      (p : ThreadPool A S) (i : ℕ) (task : QueuedTask A S) (r : ℕ) (s : S) (m : Memory)
      (ctx : RequestContext A S)
      → find_req_context p r ≡ some ctx
      → 0 < ctx.pending_count
      → ctx.pending_count < 2 ^ 32
      → let (p', s', m') = worker_process_task p i task r s m in
        (s' ≡ (after_task ctx task s m).0) × (m' ≡ (after_task ctx task s m).1)
  unfolding worker_process_task
  task-world p i task r s m ctx found pos small =
      let (ret, (s1, m1)) = task.task_func task.task_arg (s, m) in
      let e = find-set_worker p i (record (p.workers i) { state = busy }) r ∙ found in
      let p1 = set_worker p i (record (p.workers i) { state = busy }) in
      let (world, memory) = count_down-world p1 ctx r s1 m1 pos small in
      rw e (elim (Bool-cases (ctx.pending_count == 1)) [
        | inl last ↦ (world ∙ rw last refl, ap (free 1) memory ∙ rw last refl)
        | inr more ↦ (world ∙ rw more refl, ap (free 1) memory ∙ rw more refl)
      ])

  -- The context of a request after one of its tasks.
  abbrev pub context_after : RequestContext A S → Option (RequestContext A S)
  context_after ctx =
      if ctx.pending_count == 1 then none else some (with_pending (ctx.pending_count - 1) ctx)

  count_down-find :
      (p : ThreadPool A S) (ctx : RequestContext A S) (r : ℕ) (s : S) (m : Memory)
      → IsUnique p
      → find_req_context p r ≡ some ctx
      → 0 < ctx.pending_count
      → ctx.pending_count < 2 ^ 32
      → find_req_context (count_down p (some ctx) r s m).0 r ≡ context_after ctx
  count_down-find p ctx r s m u found pos small =
      let n = (ctx.pending_count + 2 ^ 32 - 1) % 2 ^ 32 in
      let e : n ≡ ctx.pending_count - 1 = omega arith in
      rw (count_down-pool p ctx r s m)
        (find-settle p r r n u ∙ rw (==_refl r, found, e) (ground arith))

  pub task-find :
      (p : ThreadPool A S) (i : ℕ) (task : QueuedTask A S) (r : ℕ) (s : S) (m : Memory)
      (ctx : RequestContext A S)
      → IsUnique p
      → find_req_context p r ≡ some ctx
      → 0 < ctx.pending_count
      → ctx.pending_count < 2 ^ 32
      → find_req_context (worker_process_task p i task r s m).0 r ≡ context_after ctx
  unfolding worker_process_task
  task-find p i task r s m ctx u found pos small =
      let (ret, (s1, m1)) = task.task_func task.task_arg (s, m) in
      let p1 = set_worker p i (record (p.workers i) { state = busy }) in
      let e = find-set_worker p i (record (p.workers i) { state = busy }) r ∙ found in
      rw e (find-set_worker _ i _ r ∙ count_down-find p1 ctx r s1 m1 u e pos small)

  pub task-rest :
      (p : ThreadPool A S) (i : ℕ) (task : QueuedTask A S) (r : ℕ) (s : S) (m : Memory)
      (ctx : RequestContext A S)
      → find_req_context p r ≡ some ctx
      → SameRest p (worker_process_task p i task r s m).0
  unfolding worker_process_task
  task-rest p i task r s m ctx found =
      let (ret, (s1, m1)) = task.task_func task.task_arg (s, m) in
      let p1 = set_worker p i (record (p.workers i) { state = busy }) in
      let e = find-set_worker p i (record (p.workers i) { state = busy }) r ∙ found in
      rw (e, count_down-pool p1 ctx r s1 m1) (settle-SameRest p1 r _)

  pub task-elsewhere :
      (p : ThreadPool A S) (i : ℕ) (task : QueuedTask A S) (r : ℕ) (s : S) (m : Memory)
      (ctx : RequestContext A S)
      → IsUnique p
      → find_req_context p r ≡ some ctx
      → (k : ℕ) → k ≢ r
      → find_req_context (worker_process_task p i task r s m).0 k ≡ find_req_context p k
  unfolding worker_process_task
  task-elsewhere p i task r s m ctx u found k ne =
      let (ret, (s1, m1)) = task.task_func task.task_arg (s, m) in
      let p1 = set_worker p i (record (p.workers i) { state = busy }) in
      let e = find-set_worker p i (record (p.workers i) { state = busy }) r ∙ found in
      rw (e, count_down-pool p1 ctx r s1 m1)
        (find-set_worker _ i _ k
          ∙ find-settle p1 r k _ u
          ∙ rw (==_ne r k (omega (arith, ne))) (find-set_worker p i _ k))
