-- ===== src/Pool/Worker/Laws.antt =====
-- The rounds of a worker of src/os_transport_thread_pool.c keep the books of the pool.
use os_transport.Base.{
  Bool, ==_refl, ==→eq, ap, ℕ, suc, ◌+◌, ◌-◌, ◌%◌, ◌^◌, ◌<◌, ◌≡◌, refl, true, false, Option, none,
  some, inl, inr, ◌==◌, if◌then◌else◌, Bool-cases, Option-cases, arith,
}
use os_transport.Memory.{Memory}
use os_transport.Pool.{
  TaskCompleteCb, exit, QueuedTask, WorkerThread, RequestContext, ThreadPool, set_worker,
  worker_count, idle, busy,
}
use os_transport.Pool.Requests.{find_req_context}
use os_transport.Pool.Queue.Laws.{
  worker_queue_pop_by_req-Pops, length-IsFirst, Pops, count-IsFirst, IsFirst, IsCounted,
}
use os_transport.Pool.Accounting.{
  find-set_worker, queued-le-load, settle-workers, count-le-queued, pending, pending_of, queued,
  IsValid, Changes, Changes-IsValid, settle, settle-IsUnique, pending-settle, settle-IsLive,
}
use os_transport.Pool.Contract.{told}
use os_transport.Pool.Worker.{
  call_back, run_popped, worker_queue_pop_by_req, finish_request, count_down, worker_process_task,
  worker_round, thread_pool_wake_up_worker_by_req_id,
}

module _ {A S : Type 0} where
  pub call_back-told :
      (cb : Option (TaskCompleteCb A S)) (id : ℕ) (good : Bool) (user_data : Option A) (s : S)
      → call_back cb id good user_data s ≡ told cb id good user_data s
  call_back-told none id good user_data s = refl
  call_back-told (some f) id good user_data s = refl

  -- The pool after `count_down`, for a request with a context.
  pub count_down-pool :
      (p : ThreadPool A S) (ctx : RequestContext A S) (r : ℕ) (s : S) (m : Memory)
      → (count_down p (some ctx) r s m).0 ≡ settle p r ((ctx.pending_count + 2 ^ 32 - 1) % 2 ^ 32)
  unfolding count_down finish_request settle
  count_down-pool p ctx r s m = ground arith

  -- A worker `i` of a pool whose books are right has taken the first task of request `r`.
  module _ (p : ThreadPool A S) (i : ℕ) (lt : i < worker_count) (v : IsValid p)
      (w : WorkerThread A S) (task : QueuedTask A S) (r : ℕ)
      (first : IsFirst r (p.workers i).queue task w.queue) (indexed : w.worker_idx ≡ i)
      (counted : IsCounted w) where
    some_left : 0 < queued p r
    some_left = ground (arith, count-le-queued p r i lt, count-IsFirst first r)

    -- `p` with the worker at work.
    abbrev at_work : ThreadPool A S
    at_work = set_worker (set_worker p i w) i (record w { state = busy })

    module _ (ctx : RequestContext A S) (found : find_req_context p r ≡ some ctx) where
      abbrev fewer : ℕ
      fewer = (ctx.pending_count + 2 ^ 32 - 1) % 2 ^ 32

      fewer_lem : suc fewer ≡ pending p r
      fewer_lem =
          let e = ap pending_of found in
          omega (arith, v.accounted r, queued-le-load p r, v.bounded, some_left)

      process-Changes :
          (q : ThreadPool A S)
          → q ≡ settle at_work r fewer
          → Changes p i
              (record w { state = idle })
              (set_worker q i (record (q.workers i) { state = idle }))
      unfolding find_req_context
      process-Changes q e = record {
        workers = λ j. rw (e, settle-workers) (ground arith);
        indexed = indexed;
        counted = counted;
        unique = rw e (settle-IsUnique at_work r fewer v.unique);
        live = rw e (settle-IsLive at_work r fewer v.unique v.live);
        balanced = λ k. rw e (
            ground (
              arith,
              pending-settle at_work r fewer k ctx v.unique found,
              count-IsFirst first k,
              ==→eq r k,
              fewer_lem,
            ));
        bounded = omega (arith, length-IsFirst first, v.bounded);
      }

    pub task-Changes :
        (s : S) (m : Memory)
        → Changes p i
            (record w { state = idle })
            (worker_process_task (set_worker p i w) i task r s m).0
    unfolding worker_process_task
    task-Changes s m = elim (Option-cases (find_req_context p r)) [
      | inl none_there ↦ absurd (omega (arith, some_left, v.accounted r, ap pending_of none_there))
      | inr (ctx, found) ↦
          let (ret, (s1, m1)) = task.task_func task.task_arg (s, m) in
          let q = (count_down at_work (find_req_context at_work r) r s1 m1).0 in
          rw (==_refl i) (
            process-Changes ctx found q
              (rw (find-set_worker, find-set_worker, found) (count_down-pool at_work ctx r s1 m1)))
    ]

    process-IsValid :
        (s : S) (m : Memory) → IsValid (worker_process_task (set_worker p i w) i task r s m).0
    process-IsValid s m =
        Changes-IsValid p i (record w { state = idle })
          (worker_process_task (set_worker p i w) i task r s m).0 lt v (task-Changes s m)

  -- A change of a worker that leaves its queue alone.
  same_queue-IsValid :
      (p : ThreadPool A S) (i : ℕ) (w : WorkerThread A S)
      → i < worker_count
      → IsValid p
      → w.worker_idx ≡ i
      → w.queue ≡ (p.workers i).queue
      → w.queue_size ≡ (p.workers i).queue_size
      → IsValid (set_worker p i w)
  unfolding find_req_context
  same_queue-IsValid p i w lt v indexed e c =
      Changes-IsValid p i w (set_worker p i w) lt v (record {
        workers = λ j. refl;
        indexed = indexed;
        counted = rw (e, c) (v.counted i);
        unique = v.unique;
        live = v.live;
        balanced = λ r. rw e;
        bounded = rw e (omega (arith, v.bounded));
      })

  popped-IsValid :
      (p : ThreadPool A S) (i : ℕ)
      → i < worker_count
      → IsValid p
      → (s : S) (m : Memory) (popped : Option (QueuedTask A S) × WorkerThread A S × Memory)
      → Pops (p.workers i).pending_req (record (p.workers i) { pending_req = 0 }) m popped
      → IsValid (run_popped p i (p.workers i).pending_req popped s).0
  unfolding run_popped
  popped-IsValid p i lt v s m (none, w, m') h = rw (h.1) (
      same_queue-IsValid p i (record (p.workers i) { pending_req = 0 }) lt v (v.indexed i) refl
        refl)
  popped-IsValid p i lt v s m (some task, w, m') h =
      process-IsValid p i lt v w task (p.workers i).pending_req h.0 (rw (h.1.2) (v.indexed i)) h.2 s
        m'

  -- A round of any worker, with or without a request that waits for it, while the pool runs or while
  -- it is being destroyed, keeps the books of the pool right.
  pub worker_round-IsValid :
      (p : ThreadPool A S) (i : ℕ) (s : S) (m : Memory)
      → i < worker_count
      → IsValid p
      → IsValid (worker_round p i s m).0
  unfolding worker_round
  worker_round-IsValid p i s m lt v = elim (Bool-cases ((p.workers i).pending_req == 0)) [
    | inl quiet ↦
        rw quiet
          (elim p.is_destroying
            as (λ b.
              IsValid
                (if◌then◌else◌ {A = ThreadPool A S × S × Memory} b
                  (set_worker p i (record (p.workers i) { state = exit }), s, m) (p, s, m)).0) [
                    | true ↦
                        same_queue-IsValid p i (record (p.workers i) { state = exit }) lt v
                          (v.indexed i) refl refl
                    | false ↦ v
                  ])
    | inr woken ↦ rw woken (
        popped-IsValid p i lt v s m
          (worker_queue_pop_by_req (record (p.workers i) { pending_req = 0 })
            (p.workers i).pending_req m)
          (worker_queue_pop_by_req-Pops (p.workers i).pending_req
            (record (p.workers i) { pending_req = 0 }) m (v.counted i)))
  ]

  -- A wake-up for any request, whether or not it has a context, keeps the books of the pool right.
  pub wake_up-IsValid :
      (p : ThreadPool A S) (r : ℕ)
      → IsValid p
      → IsValid (thread_pool_wake_up_worker_by_req_id p r).1
  unfolding thread_pool_wake_up_worker_by_req_id
  wake_up-IsValid p r v = elim (Option-cases (find_req_context p r)) [
    | inl absent ↦ rw (absent, thread_pool_wake_up_worker_by_req_id) v
    | inr (ctx, found) ↦
        rw (found, thread_pool_wake_up_worker_by_req_id)
          (same_queue-IsValid p ctx.worker_idx
            (record (p.workers ctx.worker_idx) { pending_req = r }) (v.live r ctx found).1 v
            (v.indexed ctx.worker_idx) refl refl)
  ]
