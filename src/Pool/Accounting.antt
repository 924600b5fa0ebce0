-- ===== src/Pool/Accounting.antt =====
-- The books of the thread pool of src/os_transport_thread_pool.c: what the counters of the contexts
-- and of the queues say about the tasks that wait in the queues.
use mathlib.Core.Option
use os_transport.Base.{
  refl, count_if-le, total_mono, inr, ==→eq, inl, Option-cases, Bool-cases, ℕ, ◌+◌, ◌^◌, ◌≤◌, ◌<◌,
  ◌≡◌, fun_ext, true, false, Option, none, some, ◌==◌, if◌then◌else◌, length, count_if, update,
  total, total-update, le-total, arith,
}
use os_transport.Pool.{set_worker, WorkerThread, RequestContext, ThreadPool, worker_count, has_req}
use os_transport.Pool.Requests.{find_req_context, remove_req_context, store_pending}
use os_transport.Pool.Requests.Laws.{
  with_pending, IsUnique, find-remove, find-store, remove-IsUnique, store-IsUnique,
}
use os_transport.Pool.Contract.{SameRest}
use os_transport.Pool.Queue.Laws.{IsCounted}

module _ {A S : Type 0} where
  abbrev pub pending_of : Option (RequestContext A S) → ℕ
  pending_of none = 0
  pending_of (some ctx) = ctx.pending_count

  -- The tasks that are left of request `r`, by its context; 0 if it has none.
  abbrev pub pending : ThreadPool A S → ℕ → ℕ
  pending p r = pending_of (find_req_context p r)

  -- The tasks of request `r` in the queues of all workers.
  abbrev pub queued : ThreadPool A S → ℕ → ℕ
  queued p r = total (λ w. count_if (has_req r) w.queue) worker_count p.workers

  -- All tasks in the queues.
  abbrev pub load : ThreadPool A S → ℕ
  load p = total (λ w. length w.queue) worker_count p.workers

  -- A context counts at least one task, and names a worker.
  abbrev pub IsLive : ThreadPool A S → Type 0
  IsLive p =
      (r : ℕ) (ctx : RequestContext A S)
      → find_req_context p r ≡ some ctx
      → (0 < ctx.pending_count) × (ctx.worker_idx < worker_count)

  -- Each queue's counter is right; no request has two contexts; the context of a request counts
  -- exactly the tasks of the request in all queues together, and is there only while there are some.
  -- The pool holds fewer than 2^32 tasks.
  pub record IsValid (p : ThreadPool A S) : Type 0 where
    pub indexed : (i : ℕ) → (p.workers i).worker_idx ≡ i
    pub counted : (i : ℕ) → IsCounted (p.workers i)
    pub unique : IsUnique p
    pub live : IsLive p
    pub accounted : (r : ℕ) → pending p r ≡ queued p r
    pub bounded : load p < 2 ^ 32

  pub count-le-queued :
      (p : ThreadPool A S) (r i : ℕ)
      → i < worker_count
      → count_if (has_req r) (p.workers i).queue ≤ queued p r
  count-le-queued p r i lt =
      le-total (λ w. count_if (has_req r) w.queue) worker_count p.workers i lt

  pub length-le-load :
      (p : ThreadPool A S) (i : ℕ) → i < worker_count → length (p.workers i).queue ≤ load p
  length-le-load p i lt = le-total (λ w. length w.queue) worker_count p.workers i lt

  pub queued-le-load : (p : ThreadPool A S) (r : ℕ) → queued p r ≤ load p
  queued-le-load p r =
      total_mono (λ w. count_if (has_req r) w.queue) (λ w. length w.queue) worker_count p.workers
        (λ w. count_if-le (has_req r) w.queue)

  -- The contexts are no part of the workers.
  pub find-set_worker :
      (p : ThreadPool A S) (i : ℕ) (w : WorkerThread A S) (r : ℕ)
      → find_req_context (set_worker p i w) r ≡ find_req_context p r
  unfolding find_req_context
  find-set_worker p i w r = refl

  -- The pool `p'` after an operation that changed the worker `i` of `p` to `w`, and the contexts by
  -- as much as the queue of `i`.
  pub record Changes (p : ThreadPool A S) (i : ℕ) (w : WorkerThread A S) (p' : ThreadPool A S)
      : Type 0 where
    pub workers : (j : ℕ) → p'.workers j ≡ update p.workers i w j
    pub indexed : w.worker_idx ≡ i
    pub counted : IsCounted w
    pub unique : IsUnique p'
    pub live : IsLive p'
    pub balanced :
        (r : ℕ)
        → pending p' r + count_if (has_req r) (p.workers i).queue
          ≡ pending p r + count_if (has_req r) w.queue
    pub bounded : load p + length w.queue < 2 ^ 32 + length (p.workers i).queue

  pub Changes-IsValid :
      (p : ThreadPool A S) (i : ℕ) (w : WorkerThread A S) (p' : ThreadPool A S)
      → i < worker_count
      → IsValid p
      → Changes p i w p'
      → IsValid p'
  unfolding find_req_context
  Changes-IsValid p i w p' lt v c = record {
    indexed = λ j. ground (arith, c.workers j, c.indexed, v.indexed j);
    counted = λ j. ground (arith, c.workers j, c.counted, v.counted j);
    unique = c.unique;
    live = c.live;
    accounted = λ r. rw (fun_ext c.workers) (
        omega (
          arith,
          c.balanced r,
          v.accounted r,
          total-update (λ w. count_if (has_req r) w.queue) worker_count p.workers i w lt,
        ));
    bounded =
        rw (fun_ext c.workers)
          (omega (arith, total-update (λ w. length w.queue) worker_count p.workers i w lt));
  }

  -- Writing `n` to the counter of a request, and dropping the context at 0.
  unfoldable pub settle : ThreadPool A S → ℕ → ℕ → ThreadPool A S
  settle p k n = if n == 0 then remove_req_context (store_pending p k n) k else store_pending p k n

  pub settle-workers : (p : ThreadPool A S) (k n : ℕ) → (settle p k n).workers ≡ p.workers
  unfolding settle remove_req_context store_pending
  settle-workers p k n = ground arith

  pub settle-SameRest : (p : ThreadPool A S) (k n : ℕ) → SameRest p (settle p k n)
  unfolding settle remove_req_context store_pending
  settle-SameRest p k n = ground arith

  pub find-settle :
      (p : ThreadPool A S) (k r n : ℕ)
      → IsUnique p
      → find_req_context (settle p k n) r ≡ (
          if k == r
          then if n == 0 then none else Option.map (with_pending n) (find_req_context p r)
          else find_req_context p r)
  unfolding settle
  find-settle p k r n u =
      ground
        (arith, find-store p k r n, find-remove (store_pending p k n) k r (store-IsUnique p k n u))

  pub settle-IsUnique : (p : ThreadPool A S) (k n : ℕ) → IsUnique p → IsUnique (settle p k n)
  unfolding settle
  settle-IsUnique p k n u =
      elim (n == 0)
        as (λ b.
          IsUnique
            (if b then remove_req_context (store_pending p k n) k else store_pending p k n)) [
              | true ↦ remove-IsUnique (store_pending p k n) k (store-IsUnique p k n u)
              | false ↦ store-IsUnique p k n u
            ]

  pub pending-settle :
      (p : ThreadPool A S) (k n r : ℕ) (ctx : RequestContext A S)
      → IsUnique p
      → find_req_context p k ≡ some ctx
      → pending (settle p k n) r ≡ (if k == r then n else pending p r)
  pending-settle p k n r ctx u e = elim (Bool-cases (k == r)) [
    | inl same ↦
        let e' : find_req_context p r ≡ some ctx = rw (← ==→eq k r same) e in
        ground (arith, find-settle p k r n u)
    | inr other ↦ ground (arith, find-settle p k r n u)
  ]

  pub settle-IsLive : (p : ThreadPool A S) (k n : ℕ) → IsUnique p → IsLive p → IsLive (settle p k n)
  settle-IsLive p k n u l r ctx e = elim (Option-cases (find_req_context p r)) [
    | inl gone ↦ ground (arith, find-settle p k r n u)
    | inr (c, found) ↦ ground (arith, find-settle p k r n u, l r c found)
  ]
