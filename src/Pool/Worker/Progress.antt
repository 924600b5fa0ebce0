-- ===== src/Pool/Worker/Progress.antt =====
-- What a wake-up makes a worker of src/os_transport_thread_pool.c do.
use os_transport.Base.{
  ap, arith, ◌∙◌, refl, ==_refl, ◌<◌, ℕ, ◌+◌, ◌-◌, ◌%◌, ◌^◌, ◌≡◌, ◌≢◌, some, List, ==_ne,
}
use os_transport.Memory.{Memory, free}
use os_transport.Pool.{QueuedTask, WorkerThread, RequestContext, ThreadPool, set_worker, idle}
use os_transport.Pool.Requests.{find_req_context}
use os_transport.Pool.Queue.{unlink_first, worker_queue_pop_by_req}
use os_transport.Pool.Accounting.{
  queued-le-load, pending_of, find-set_worker, Changes-IsValid, Changes, IsValid,
}
use os_transport.Pool.Worker.Laws.{task-Changes, wake_up-IsValid}
use os_transport.Pool.Queue.Laws.{unlink_first-IsFirst, length-IsFirst, IsFirst}
use os_transport.Pool.Contract.{SameRest}
use os_transport.Pool.Worker.Task.{
  task-world, task-find, task-rest, after_task, task-elsewhere, context_after,
}
use os_transport.Pool.Worker.{
  worker_process_task, run_popped, worker_round, thread_pool_wake_up_worker_by_req_id,
}

module _ {A S : Type 0} where
  pub wake-found :
      (p : ThreadPool A S) (r : ℕ) (ctx : RequestContext A S)
      → find_req_context p r ≡ some ctx
      → thread_pool_wake_up_worker_by_req_id p r
        ≡ (0, set_worker p ctx.worker_idx (record (p.workers ctx.worker_idx) { pending_req = r }))
  unfolding thread_pool_wake_up_worker_by_req_id
  wake-found p r ctx found = rw (found, thread_pool_wake_up_worker_by_req_id)

  popped : WorkerThread A S → List (QueuedTask A S) → WorkerThread A S
  popped w left = record w { queue = left; queue_size = (w.queue_size + 2 ^ 32 - 1) % 2 ^ 32 }

  pop-found :
      (w : WorkerThread A S) (r : ℕ) (m : Memory) (task : QueuedTask A S)
      (left : List (QueuedTask A S))
      → unlink_first r w.queue ≡ some (task, left)
      → worker_queue_pop_by_req w r m ≡ (some task, popped w left, free 1 m)
  unfolding worker_queue_pop_by_req popped
  pop-found w r m task left e = rw (e, worker_queue_pop_by_req)

  -- A round of a worker `w` that has been woken for `r`.
  round-woken :
      (p : ThreadPool A S) (i r : ℕ) (s : S) (m : Memory) (w : WorkerThread A S)
      (task : QueuedTask A S) (left : List (QueuedTask A S))
      → p.workers i ≡ w
      → w.pending_req ≡ r
      → r ≢ 0
      → unlink_first r w.queue ≡ some (task, left)
      → worker_round p i s m
        ≡ worker_process_task
            (set_worker p i (popped (record w { pending_req = 0 }) left))
            i
            task
            r
            s
            (free 1 m)
  unfolding worker_round run_popped
  round-woken p i r s m w task left ew er ne e =
      rw (ew, er, ==_ne r 0 ne, pop-found (record w { pending_req = 0 }) r m task left e)

  -- What the round of a woken worker does to the pool, when `task` is the first task of request `r` in
  -- the queue of the worker that the context `ctx` names, and `left` the queue without it.
  pub record Runs (p : ThreadPool A S) (r : ℕ) (ctx : RequestContext A S) (task : QueuedTask A S)
      (left : List (QueuedTask A S)) (p' : ThreadPool A S) : Type 0 where
    pub queue : (p'.workers ctx.worker_idx).queue ≡ left
    pub state : (p'.workers ctx.worker_idx).state ≡ idle
    pub served : (p'.workers ctx.worker_idx).pending_req ≡ 0
    pub tid : (p'.workers ctx.worker_idx).tid ≡ (p.workers ctx.worker_idx).tid
    pub others : (j : ℕ) → j ≢ ctx.worker_idx → p'.workers j ≡ p.workers j
    pub context : find_req_context p' r ≡ context_after ctx
    pub elsewhere : (k : ℕ) → k ≢ r → find_req_context p' k ≡ find_req_context p k
    pub rest : SameRest p p'
    pub valid : IsValid p'

  -- A request `r`, not 0, with a context, in a pool whose books are right.
  module _ (p : ThreadPool A S) (v : IsValid p) (r : ℕ) (ctx : RequestContext A S)
      (found : find_req_context p r ≡ some ctx) (ne : r ≢ 0) (task : QueuedTask A S)
      (left : List (QueuedTask A S))
      (first_lem : IsFirst r (p.workers ctx.worker_idx).queue task left) where
    abbrev i : ℕ
    i = ctx.worker_idx

    abbrev woken : WorkerThread A S
    woken = record (p.workers i) { pending_req = r }

    abbrev waiting : ThreadPool A S
    waiting = set_worker p i woken

    waiting-IsValid : IsValid waiting
    waiting-IsValid = rw (wake-found p r ctx found) at (wake_up-IsValid p r v)

    round_lem :
        (s : S) (m : Memory)
        → worker_round waiting i s m
          ≡ worker_process_task
              (set_worker waiting i (popped (record woken { pending_req = 0 }) left))
              i
              task
              r
              s
              (free 1 m)
    round_lem s m =
        round-woken waiting i r s m woken task left (rw (==_refl i)) refl ne
          (unlink_first-IsFirst first_lem)

    round-Changes :
        (s : S) (m : Memory)
        → Changes waiting i
            (record (popped (record woken { pending_req = 0 }) left) { state = idle })
            (worker_round waiting i s m).0
    unfolding popped
    round-Changes s m = rw (round_lem s m) (
        task-Changes waiting i (v.live r ctx found).1 waiting-IsValid
          (popped (record woken { pending_req = 0 }) left) task r (rw (==_refl i) first_lem)
          (v.indexed i) (omega (arith, v.counted i, length-IsFirst first_lem)) s (free 1 m))

    found_waiting : find_req_context waiting r ≡ some ctx
    found_waiting = find-set_worker p i woken r ∙ found

    few : ctx.pending_count < 2 ^ 32
    few = omega (arith, ap pending_of found, v.accounted r, queued-le-load p r, v.bounded)

    abbrev at_task : ThreadPool A S
    at_task = set_worker waiting i (popped (record woken { pending_req = 0 }) left)

    found_at : find_req_context at_task r ≡ some ctx
    found_at =
        find-set_worker waiting i (popped (record woken { pending_req = 0 }) left) r ∙ found_waiting

    round-world :
        (s : S) (m : Memory)
        → let (p', s', m') = worker_round waiting i s m in
          (s' ≡ (after_task ctx task s (free 1 m)).0) × (m' ≡ (after_task ctx task s (free 1 m)).1)
    round-world s m =
        rw (round_lem s m)
          (task-world at_task i task r s (free 1 m) ctx found_at (v.live r ctx found).0 few)

    round-find :
        (s : S) (m : Memory) → find_req_context (worker_round waiting i s m).0 r ≡ context_after ctx
    round-find s m =
        rw (round_lem s m)
          (task-find at_task i task r s (free 1 m) ctx v.unique found_at (v.live r ctx found).0 few)

    round-elsewhere :
        (s : S) (m : Memory) (k : ℕ)
        → k ≢ r
        → find_req_context (worker_round waiting i s m).0 k ≡ find_req_context p k
    unfolding find_req_context
    round-elsewhere s m k ne =
        rw (round_lem s m) (task-elsewhere at_task i task r s (free 1 m) ctx v.unique found_at k ne)

    round-rest : (s : S) (m : Memory) → SameRest p (worker_round waiting i s m).0
    round-rest s m = rw (round_lem s m) (task-rest at_task i task r s (free 1 m) ctx found_at)

    round-Runs : (s : S) (m : Memory) → Runs p r ctx task left (worker_round waiting i s m).0
    unfolding popped
    round-Runs s m =
        let c = round-Changes s m in
        record {
          queue = rw (c.workers i, ==_refl i) refl;
          state = rw (c.workers i, ==_refl i) refl;
          served = rw (c.workers i, ==_refl i) refl;
          tid = rw (c.workers i, ==_refl i) refl;
          others = λ j ne. ground (arith, c.workers j);
          context = round-find s m;
          elsewhere = λ k ne. round-elsewhere s m k ne;
          rest = round-rest s m;
          valid =
              Changes-IsValid waiting i
                (record (popped (record woken { pending_req = 0 }) left) { state = idle })
                (worker_round waiting i s m).0 (v.live r ctx found).1 waiting-IsValid c;
        }

    -- For a request, not 0, that has a context in a pool whose books are right, and whose first task in
    -- the queue of the worker that the context names is `task`: a wake-up returns 0, and the round that
    -- this worker makes then runs `task` with its argument, and after it the batch's callback if the
    -- context counted no other task. The worker's queue has lost `task` alone, and the worker is idle
    -- and waits for the next wake-up. The context counts one task less, or is gone if it was the last.
    -- The task's node, the task and a context that is gone are given back. No other worker, no other
    -- request's context and no flag of the pool has changed, and the books are right.
    pub wake_up-Runs :
        (s : S) (m : Memory)
        → let (ret, p1) = thread_pool_wake_up_worker_by_req_id p r in
          let (p2, s2, m2) = worker_round p1 ctx.worker_idx s m in
          (ret ≡ 0)
          × (s2 ≡ (after_task ctx task s (free 1 m)).0)
          × (m2 ≡ (after_task ctx task s (free 1 m)).1)
          × Runs p r ctx task left p2
    wake_up-Runs s m =
        rw (wake-found p r ctx found)
          (refl, (round-world s m).0, (round-world s m).1, round-Runs s m)
