-- ===== src/Pool/Submit/Attach.antt =====
-- The second half of a batch submission in src/os_transport_thread_pool.c: attach_nodes_to_worker and
-- update_batch_context keep the books of the pool.
use os_transport.Base.{
  ◌++◌, ℕ, ◌+◌, ◌%◌, ◌^◌, ◌<◌, ◌≡◌, ◌∙◌, refl, ap, true, none, some, inl, inr, List, ◌==◌,
  if◌then◌else◌, ==→eq, length, length-append, count_if, count_if-append, Option-cases, arith,
}
use os_transport.Pool.{
  QueuedTask, WorkerThread, RequestContext, ThreadPool, set_worker, worker_count, has_req,
}
use os_transport.Pool.Requests.{find_req_context, insert_req_context, store_pending}
use os_transport.Pool.Requests.Laws.{find-insert, find-store, insert-IsUnique, store-IsUnique}
use os_transport.Pool.Queue.Laws.{IsCounted}
use os_transport.Pool.Queue.{attach_nodes_to_worker}
use os_transport.Pool.Accounting.{
  find-set_worker, pending, pending_of, load, IsValid, Changes, queued-le-load,
}

module _ {A S : Type 0} where
  -- `n` new tasks of request `r` for the worker `i` of a pool whose books are right and that has room
  -- for them.
  module _ (p : ThreadPool A S) (v : IsValid p) (i : ℕ) (lt : i < worker_count) (r n : ℕ)
      (nodes : List (QueuedTask A S)) (long : length nodes ≡ n) (pos : 0 < n)
      (all : (k : ℕ) → count_if (has_req k) nodes ≡ (if r == k then n else 0))
      (room : load p + n < 2 ^ 32) where
    abbrev pub attached : WorkerThread A S
    attached = attach_nodes_to_worker (p.workers i) nodes (length nodes)

    abbrev with_nodes : ThreadPool A S
    with_nodes = set_worker p i attached

    same_find : (k : ℕ) → find_req_context with_nodes k ≡ find_req_context p k
    same_find k = find-set_worker p i attached k

    pub attached-queue : attached.queue ≡ (p.workers i).queue ++ nodes
    unfolding attach_nodes_to_worker
    attached-queue = refl

    pub attached-indexed : attached.worker_idx ≡ i
    unfolding attach_nodes_to_worker
    attached-indexed = v.indexed i

    attached-IsCounted : IsCounted attached
    unfolding attach_nodes_to_worker
    attached-IsCounted = rw length-append (omega (arith, v.counted i))

    attached-count :
        (k : ℕ)
        → count_if (has_req k) attached.queue
          ≡ count_if (has_req k) (p.workers i).queue + (if r == k then n else 0)
    unfolding attach_nodes_to_worker
    attached-count k = rw (count_if-append, all k)

    attached-length : load p + length attached.queue < 2 ^ 32 + length (p.workers i).queue
    unfolding attach_nodes_to_worker
    attached-length = rw length-append (omega arith)

    -- The context is the one that the table holds, or a new one.
    pub stored-Changes :
        (ctx : RequestContext A S)
        → find_req_context p r ≡ some ctx
        → Changes p i attached (store_pending with_nodes r ((ctx.pending_count + n) % 2 ^ 32))
    stored-Changes ctx found = record {
      workers = λ j. unfold store_pending in refl;
      indexed = attached-indexed;
      counted = attached-IsCounted;
      unique = store-IsUnique with_nodes r _ v.unique;
      live = λ k c e. elim (Option-cases (find_req_context p k)) [
        | inl none_there ↦ ground (arith, find-store with_nodes r k more, same_find k)
        | inr (old, there) ↦
            ground
              (arith, find-store with_nodes r k more, same_find k, v.live k old there, more_lem)
      ];
      balanced = λ k. ground (
        arith,
        find-store with_nodes r k more,
        same_find k,
        attached-count k,
        ==→eq r k,
        more_lem,
        found_at k,
      );
      bounded = attached-length;
    }
      where
        more : ℕ
        more = (ctx.pending_count + n) % 2 ^ 32

        more_lem : more ≡ pending p r + n
        more_lem =
            let e = ap pending_of found in omega (arith, v.accounted r, queued-le-load p r, room)

        found_at : (k : ℕ) → (r == k) ≡ true → find_req_context p k ≡ some ctx
        found_at k e = rw (← ==→eq r k e) found

    pub inserted-Changes :
        (c : RequestContext A S)
        → find_req_context p r ≡ none
        → c.request_id ≡ r
        → c.worker_idx ≡ i
        → c.pending_count ≡ n
        → Changes p i attached (insert_req_context with_nodes c)
    inserted-Changes c absent er ei en = record {
      workers = λ j. unfold insert_req_context in refl;
      indexed = attached-indexed;
      counted = attached-IsCounted;
      unique = insert-IsUnique with_nodes c v.unique (rw er (same_find r ∙ absent));
      live = λ k d e. elim (Option-cases (find_req_context p k)) [
        | inl none_there ↦ ground (arith, find-insert with_nodes c k, same_find k)
        | inr (old, there) ↦
            ground (arith, find-insert with_nodes c k, same_find k, v.live k old there)
      ];
      balanced = λ k. ground (
        arith,
        find-insert with_nodes c k,
        same_find k,
        attached-count k,
        ==→eq r k,
        absent_at k,
      );
      bounded = attached-length;
    }
      where
        absent_at : (k : ℕ) → (r == k) ≡ true → find_req_context p k ≡ none
        absent_at k e = rw (← ==→eq r k e) absent
