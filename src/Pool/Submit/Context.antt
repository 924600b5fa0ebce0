-- ===== src/Pool/Submit/Context.antt =====
-- The context that a batch gets from update_batch_context in src/os_transport_thread_pool.c: the one
-- that its request has, a new one, or none when there is no memory for it.
use os_transport.Pool.{set_worker, QueuedTask, RequestContext, TaskCompleteCb, ThreadPool}
use os_transport.Memory.{malloc, Memory}
use os_transport.Pool.Accounting.{find-set_worker}
use os_transport.Pool.Contract.{SameFlags}
use os_transport.Pool.Submit.{update_batch_context, attach_batch}
use os_transport.Pool.Requests.{find_req_context, store_pending, insert_req_context}
use os_transport.Pool.Requests.Laws.{find-store, find-insert}
use os_transport.Pool.Queue.{attach_nodes_to_worker}
use os_transport.Base.{
  ==_refl, Bool-cases, inl, inr, Option-cases, ℕ, ◌+◌, ◌%◌, ◌^◌, ◌≡◌, ◌≢◌, ◌∙◌, refl, true, false,
  Option, none, some, List, length, arith,
}

module _ {A S : Type 0} where
  -- The context of a new request.
  abbrev pub new_context :
      (r idx n : ℕ) → Option (TaskCompleteCb A S) → Option A → RequestContext A S
  new_context r idx n cb user_data = record {
    request_id = r;
    worker_idx = idx;
    pending_count = n;
    batch_cb = cb;
    batch_user_data = user_data;
  }

  module _ (p : ThreadPool A S) (i r n : ℕ) (nodes : List (QueuedTask A S))
      (cb : Option (TaskCompleteCb A S)) (user_data : Option A) (m : Memory)
      (indexed : (p.workers i).worker_idx ≡ i) where
    abbrev pub extended : ThreadPool A S
    extended = set_worker p i (attach_nodes_to_worker (p.workers i) nodes (length nodes))

    same_find : (k : ℕ) → find_req_context extended k ≡ find_req_context p k
    same_find k = find-set_worker p i (attach_nodes_to_worker (p.workers i) nodes (length nodes)) k

    pub attach-found :
        (ctx : RequestContext A S)
        → find_req_context p r ≡ some ctx
        → attach_batch p r i nodes n cb user_data m
          ≡ (store_pending extended r ((ctx.pending_count + n) % 2 ^ 32), m)
    unfolding attach_batch update_batch_context
    attach-found ctx found = rw (same_find r ∙ found, attach_batch, update_batch_context) refl

    pub attach-new :
        find_req_context p r ≡ none
        → m.grants m.requests ≡ true
        → attach_batch p r i nodes n cb user_data m
          ≡ (insert_req_context extended (new_context r i n cb user_data), (malloc m).1)
    unfolding attach_batch update_batch_context attach_nodes_to_worker
    attach-new absent granted =
        rw (same_find r ∙ absent, attach_batch, update_batch_context, granted, indexed) refl

    pub attach-refused :
        find_req_context p r ≡ none
        → m.grants m.requests ≡ false
        → attach_batch p r i nodes n cb user_data m ≡ (extended, (malloc m).1)
    unfolding attach_batch update_batch_context
    attach-refused absent refused =
        rw (same_find r ∙ absent, attach_batch, update_batch_context, refused) refl

    -- In each case the worker alone gets the nodes, and no other request gets a context or loses one.
    pub record Attaches (p' : ThreadPool A S) : Type 0 where
      pub workers : (j : ℕ) → p'.workers j ≡ extended.workers j
      pub flags : SameFlags p p'
      pub elsewhere : (k : ℕ) → k ≢ r → find_req_context p' k ≡ find_req_context p k

    found-Attaches : (c : ℕ) → Attaches (store_pending extended r c)
    found-Attaches c = record {
      workers = λ j. unfold store_pending in refl;
      flags = unfold store_pending in (refl, refl, refl);
      elsewhere = λ k ne. ground (arith, find-store extended r k c, same_find k);
    }

    new-Attaches : Attaches (insert_req_context extended (new_context r i n cb user_data))
    new-Attaches = record {
      workers = λ j. unfold insert_req_context in refl;
      flags = unfold insert_req_context in (refl, refl, refl);
      elsewhere = λ k ne.
          ground (arith, find-insert extended (new_context r i n cb user_data) k, same_find k);
    }

    refused-Attaches : Attaches extended
    refused-Attaches = record {
      workers = λ j. refl;
      flags = (refl, refl, refl);
      elsewhere = λ k ne. same_find k;
    }

    pub attach_batch-Attaches : Attaches (attach_batch p r i nodes n cb user_data m).0
    attach_batch-Attaches = elim (Option-cases (find_req_context p r)) [
      | inr (ctx, found) ↦ rw (attach-found ctx found) (found-Attaches _)
      | inl absent ↦ elim (Bool-cases (m.grants m.requests)) [
        | inl granted ↦ rw (attach-new absent granted) new-Attaches
        | inr refused ↦ rw (attach-refused absent refused) refused-Attaches
      ]
    ]

    -- The context of the request afterwards.
    pub find-attach-found :
        (ctx : RequestContext A S)
        → find_req_context p r ≡ some ctx
        → find_req_context (attach_batch p r i nodes n cb user_data m).0 r
          ≡ some (record ctx { pending_count = (ctx.pending_count + n) % 2 ^ 32 })
    find-attach-found ctx found = rw (attach-found ctx found) (
        ground (
          arith,
          find-store extended r r ((ctx.pending_count + n) % 2 ^ 32),
          same_find r,
          ==_refl r,
        ))

    pub find-attach-new :
        find_req_context p r ≡ none
        → m.grants m.requests ≡ true
        → find_req_context (attach_batch p r i nodes n cb user_data m).0 r
          ≡ some (new_context r i n cb user_data)
    find-attach-new absent granted =
        rw (attach-new absent granted)
          (find-insert extended (new_context r i n cb user_data) r ∙ rw (==_refl r))

    pub find-attach-refused :
        find_req_context p r ≡ none
        → m.grants m.requests ≡ false
        → find_req_context (attach_batch p r i nodes n cb user_data m).0 r ≡ none
    find-attach-refused absent refused = rw (attach-refused absent refused) (same_find r ∙ absent)
