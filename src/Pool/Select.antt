-- ===== src/Pool/Select.antt =====
-- src/os_transport_thread_pool.c, select_best_worker.
pub mod Laws
use os_transport.Base.{
  ℕ, zero, suc, ◌-◌, ◌^◌, Bool, true, false, ◌&&◌, Option, none, some, ltb, ◌==◌, if◌then◌else◌,
}
use os_transport.Pool.{ThreadPool, WorkerThread, WorkerState, init, idle, busy, exit, worker_count}

abbrev pub is_idle : WorkerState → Bool
is_idle idle = true
is_idle _ = false

abbrev pub is_busy : WorkerState → Bool
is_busy busy = true
is_busy _ = false

module _ {A S : Type 0} where
  -- The test that ends the search.
  abbrev pub is_free : WorkerThread A S → Bool
  is_free w = is_idle w.state && w.queue_size == 0

  -- The test that makes a worker the best one so far.
  abbrev pub is_better : WorkerThread A S → (min_load : ℕ) → Bool
  is_better w min_load = is_busy w.state && ltb w.queue_size min_load

  -- The loop from worker `i` on, with `n` workers left.
  unfoldable pub select_from :
      (ℕ → WorkerThread A S) → (i n : ℕ) → (best : Option ℕ) → (min_load : ℕ) → Option ℕ
  select_from ws i zero best min_load = best
  select_from ws i (suc n) best min_load =
      let better = is_better (ws i) min_load in
      let rest =
        select_from ws (suc i) n (if better then some i else best)
          (if better then (ws i).queue_size else min_load) in
      if is_free (ws i) then some i else rest

  -- The index of the worker, in place of the pointer to it.
  unfoldable pub select_best_worker : ThreadPool A S → Option ℕ
  select_best_worker p = select_from p.workers 0 worker_count none (2 ^ 32 - 1)
