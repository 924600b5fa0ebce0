-- ===== src/Pool/Lifecycle.antt =====
-- src/os_transport_thread_pool.c, the life of a pool: init_workers_basic, create_worker,
-- create_all_workers, thread_pool_init, thread_pool_start, shutdown_threads, destroy_worker,
-- destroy_all_workers, destroy_hash_table, thread_pool_destroy. What pthread_create returns for each
-- worker, with the id of the thread, is a parameter.
pub mod Laws
use os_transport.Base.{
  ℕ, zero, suc, ◌+◌, ◌*◌, Bool, true, false, Option, none, some, List, [], ◌∷◌, ◌==◌, if◌then◌else◌,
  minus_one, length,
}
use os_transport.Memory.{Memory, malloc, free}
use os_transport.Pool.{
  WorkerState, init, idle, busy, exit, WorkerThread, RequestContext, ThreadPool, set_worker,
  worker_count, req_hash_size,
}
use os_transport.Pool.Worker.{worker_round}

module _ {A S : Type 0} where
  abbrev pub fresh_worker : (idx : ℕ) → WorkerThread A S
  fresh_worker idx = record {
    tid = 0;
    state = init;
    worker_idx = idx;
    queue = [];
    queue_size = 0;
    pending_req = 0;
  }

  -- The pool after `calloc`, `init_workers_basic` and the assignments of `thread_pool_init`.
  abbrev pub fresh_pool : ThreadPool A S
  fresh_pool = record {
    workers = fresh_worker;
    is_running = false;
    is_destroying = false;
    next_task_id = 1;
    urma_info = record { jfce = 0; jfc = 0; urma_event_mode = false };
    req_hash = λ h. [];
  }

  -- The new thread sets its state to idle before the creator goes on. When there is no thread, `tid`
  -- holds what `pthread_create` left there, which may be anything.
  unfoldable pub create_worker : (ℕ → ℕ × ℕ) → ThreadPool A S → ℕ → Bool × ThreadPool A S
  create_worker pthread_create p idx =
      let (ret, tid) = pthread_create idx in
      if ret == 0
      then (true, set_worker p idx (record (p.workers idx) { tid = tid; state = idle }))
      else (false, set_worker p idx (record (p.workers idx) { tid = tid }))

  -- The loop from worker `i` on, with `n` workers left.
  unfoldable pub create_workers_from :
      (ℕ → ℕ × ℕ) → ThreadPool A S → (i n : ℕ) → Bool × ThreadPool A S
  create_workers_from pthread_create p i zero = (true, p)
  create_workers_from pthread_create p i (suc n) =
      let (good, p') = create_worker pthread_create p i in
      let rest = create_workers_from pthread_create p' (suc i) n in
      if good then rest else (false, p')

  -- A worker that `pthread_join` waits for makes the round in which it serves a request that it was
  -- woken for, if there is one, and the round in which it exits.
  unfoldable pub join_worker : ThreadPool A S → ℕ → S → Memory → ThreadPool A S × S × Memory
  join_worker p idx s m =
      let (p1, s1, m1) = worker_round p idx s m in
      if (p.workers idx).pending_req == 0 then (p1, s1, m1) else worker_round p1 idx s1 m1

  unfoldable pub join_workers_from :
      ThreadPool A S → (i n : ℕ) → S → Memory → ThreadPool A S × S × Memory
  join_workers_from p i zero s m = (p, s, m)
  join_workers_from p i (suc n) s m =
      let (p1, s1, m1) = join_worker p i s m in
      if (p.workers i).tid == 0
      then join_workers_from p (suc i) n s m
      else join_workers_from p1 (suc i) n s1 m1

  -- `destroy_worker` for each worker: a queued task is freed with its argument and its node.
  unfoldable pub destroy_workers_from : (ℕ → WorkerThread A S) → (i n : ℕ) → Memory → Memory
  destroy_workers_from ws i zero m = m
  destroy_workers_from ws i (suc n) m =
      destroy_workers_from ws (suc i) n (free (3 * length (ws i).queue) m)

  unfoldable pub destroy_chains_from : (ℕ → List (RequestContext A S)) → (i n : ℕ) → Memory → Memory
  destroy_chains_from chains i zero m = m
  destroy_chains_from chains i (suc n) m =
      destroy_chains_from chains (suc i) n (free (length (chains i)) m)

  -- What the threads did to the outside state is the result; the pool is gone.
  unfoldable pub thread_pool_destroy : Option (ThreadPool A S) → S → Memory → S × Memory
  thread_pool_destroy none s m = (s, m)
  thread_pool_destroy (some p) s m =
      let (p1, s1, m1) = join_workers_from (record p { is_destroying = true }) 0 worker_count s m in
      let m2 = destroy_workers_from p1.workers 0 worker_count m1 in
      (s1, free 1 (destroy_chains_from p1.req_hash 0 req_hash_size m2))

  -- The two capacities of the C function are not read.
  unfoldable pub thread_pool_init : (ℕ → ℕ × ℕ) → S → Memory → Option (ThreadPool A S) × S × Memory
  thread_pool_init pthread_create s m =
      let (granted, m1) = malloc m in
      let (good, p) = create_workers_from pthread_create fresh_pool 0 worker_count in
      if granted
      then if good
        then (some p, s, m1)
        else (let (s2, m2) = thread_pool_destroy (some p) s m1 in (none, s2, m2))
      else (none, s, m1)

  unfoldable pub thread_pool_start : Option (ThreadPool A S) → ℕ × Option (ThreadPool A S)
  thread_pool_start none = (minus_one, none)
  thread_pool_start (some p) =
      if p.is_running then (minus_one, some p) else (0, some (record p { is_running = true }))
