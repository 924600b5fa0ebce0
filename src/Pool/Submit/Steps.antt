-- ===== src/Pool/Submit/Steps.antt =====
-- The steps of a batch submission in src/os_transport_thread_pool.c: validate_and_select_worker, the
-- wrapped tasks, and the pool after attach_batch.
use os_transport.Base.{
  ℕ, suc, ◌+◌, ◌%◌, ◌^◌, ◌<◌, ◌≡◌, ◌∙◌, refl, ap, true, Option, none, some, inl, inr, List, [], ◌∷◌,
  ◌==◌, if◌then◌else◌, length, count_if, Bool-cases, Option-cases, arith,
}
use os_transport.Memory.{Memory, Holds, Asked}
use os_transport.Pool.{
  ThreadPoolTask, TaskCompleteCb, QueuedTask, RequestContext, ThreadPool, set_worker, worker_count,
  has_req,
}
use os_transport.Pool.Requests.{insert_req_context, store_pending, find_req_context}
use os_transport.Pool.Select.{select_best_worker}
use os_transport.Pool.Select.Laws.{select_best_worker-Selects}
use os_transport.Pool.Accounting.{find-set_worker, load, IsValid, Changes}
use os_transport.Pool.Submit.{
  same_request, validate_and_select_worker, update_batch_context, attach_batch,
}
use os_transport.Pool.Submit.Nodes.{wrap_all}
use os_transport.Pool.Submit.Attach.{attached-indexed, attached, stored-Changes, inserted-Changes}

module _ {A S : Type 0} where
  -- Only workers of the array are selected.
  pub select_best_worker-lt :
      (p : ThreadPool A S) (i : ℕ) → select_best_worker p ≡ some i → i < worker_count
  select_best_worker-lt p i e = elim (select_best_worker-Selects p) [
    | inl (j, lo, hi, fr, found) ↦ ground arith
    | inr (nf, inl (j, lo, hi, found, at_work, light, lightest)) ↦ ground arith
    | inr (nf, inr (found, rest)) ↦ ground arith
  ]

  -- The checks and the choice of a worker, for a batch that begins with `t`.
  abbrev pub Validates :
      ThreadPool A S
      → ThreadPoolTask A S
      → List (ThreadPoolTask A S)
      → Memory
      → Option (ℕ × ℕ) × Memory
      → Type 0
  Validates p t ts m (none, m') = Holds 0 m m'
  Validates p t ts m (some (r, i), m') =
      (p.is_running ≡ true)
      × (r ≡ t.request_id)
      × (same_request r ts ≡ true)
      × (select_best_worker p ≡ some i)
      × Asked 1 1 m m'

  pub validate-Validates :
      (p : ThreadPool A S) (t : ThreadPoolTask A S) (ts : List (ThreadPoolTask A S)) (m : Memory)
      → Validates p t ts m (validate_and_select_worker p (t ∷ ts) m)
  unfolding validate_and_select_worker
  validate-Validates p t ts m = elim (Bool-cases p.is_running) [
    | inr still ↦ simp still (omega arith)
    | inl runs ↦ elim (Bool-cases (same_request t.request_id ts)) [
      | inr mixed ↦ simp (runs, mixed) (omega arith)
      | inl same ↦ elim (Bool-cases (m.grants m.requests)) [
        | inr no_ids ↦ simp (runs, same, no_ids) (omega arith)
        | inl granted ↦ elim (Option-cases (select_best_worker p)) [
          | inl nobody ↦ simp (runs, same, granted, nobody) (omega arith)
          | inr (i, chosen) ↦
              simp (runs, same, granted, chosen)
                (refl, refl, refl, refl, (refl, omega arith, omega arith))
        ]
      ]
    ]
  ]

  pub count-wrap_all :
      (r k : ℕ) (cb : Option (TaskCompleteCb A S)) (user_data : Option A) (id : ℕ)
      (ts : List (ThreadPoolTask A S))
      → count_if (has_req k) (wrap_all r cb user_data id ts) ≡ (if r == k then length ts else 0)
  unfolding wrap_all
  count-wrap_all r k cb user_data id [] = ground arith
  count-wrap_all r k cb user_data id (t ∷ ts) =
      ground (arith, count-wrap_all r k cb user_data ((id + 1) % 2 ^ 64) ts)

  pub length-wrap_all :
      (r : ℕ) (cb : Option (TaskCompleteCb A S)) (user_data : Option A) (id : ℕ)
      (ts : List (ThreadPoolTask A S))
      → length (wrap_all r cb user_data id ts) ≡ length ts
  unfolding wrap_all
  length-wrap_all r cb user_data id [] = refl
  length-wrap_all r cb user_data id (t ∷ ts) =
      ap suc (length-wrap_all r cb user_data ((id + 1) % 2 ^ 64) ts)

  -- The task ids to come are no part of the books.
  pub ids-IsValid :
      (p : ThreadPool A S) (n : ℕ) → IsValid p → IsValid (record p { next_task_id = n })
  unfolding find_req_context
  ids-IsValid p n v = record {
    indexed = v.indexed;
    counted = v.counted;
    unique = v.unique;
    live = v.live;
    accounted = v.accounted;
    bounded = v.bounded;
  }

  update-found :
      (p : ThreadPool A S) (r i n : ℕ) (cb : Option (TaskCompleteCb A S)) (user_data : Option A)
      (m : Memory) (ctx : RequestContext A S)
      → find_req_context p r ≡ some ctx
      → (update_batch_context p r i n cb user_data m).1
        ≡ store_pending p r ((ctx.pending_count + n) % 2 ^ 32)
  unfolding update_batch_context
  update-found p r i n cb user_data m ctx found = rw (found, update_batch_context)

  update-absent :
      (p : ThreadPool A S) (r i n : ℕ) (cb : Option (TaskCompleteCb A S)) (user_data : Option A)
      (m : Memory)
      → find_req_context p r ≡ none
      → m.grants m.requests ≡ true
      → (update_batch_context p r i n cb user_data m).1
        ≡ insert_req_context p (record {
          request_id = r;
          worker_idx = i;
          pending_count = n;
          batch_cb = cb;
          batch_user_data = user_data;
        })
  unfolding update_batch_context
  update-absent p r i n cb user_data m absent granted = rw (absent, update_batch_context, granted)

  -- A pool whose books are right has got the nodes of a batch; a context is there, or there is memory
  -- for one.
  pub attach_batch-Changes :
      (p : ThreadPool A S) (v : IsValid p) (i : ℕ) (lt : i < worker_count) (r n : ℕ)
      (nodes : List (QueuedTask A S)) (long : length nodes ≡ n) (pos : 0 < n)
      (all : (k : ℕ) → count_if (has_req k) nodes ≡ (if r == k then n else 0))
      (room : load p + n < 2 ^ 32) (cb : Option (TaskCompleteCb A S)) (user_data : Option A)
      (m : Memory)
      → (find_req_context p r ≡ none → m.grants m.requests ≡ true)
      → Changes p i
          (attached p v i lt r n nodes long pos all room)
          (attach_batch p r i nodes n cb user_data m).0
  unfolding attach_batch
  attach_batch-Changes p v i lt r n nodes long pos all room cb user_data m granted =
      let w = attached p v i lt r n nodes long pos all room in
      let same = find-set_worker p i w r in
      elim (Option-cases (find_req_context p r)) [
        | inl absent ↦
            rw
              (update-absent (set_worker p i w) r w.worker_idx n cb user_data m (same ∙ absent)
                (granted absent))
              (inserted-Changes p v i lt r n nodes long pos all room
                (record {
                  request_id = r;
                  worker_idx = w.worker_idx;
                  pending_count = n;
                  batch_cb = cb;
                  batch_user_data = user_data;
                })
                absent refl (attached-indexed p v i lt r n nodes long pos all room) refl)
        | inr (ctx, found) ↦
            rw (update-found (set_worker p i w) r w.worker_idx n cb user_data m ctx (same ∙ found))
              (stored-Changes p v i lt r n nodes long pos all room ctx found)
      ]
