-- ===== src/Pool/Submit/Batch.antt =====
-- The submission of a batch in src/os_transport_thread_pool.c, from the arguments to the new pool.
use os_transport.Base.{
  length-append, ◌∙◌, sym, ◌%◌, Bool-cases, inl, inr, Option-cases, false, ◌⊎◌, ℕ, ◌+◌, ◌*◌, ◌^◌,
  ◌<◌, ◌≡◌, ◌≢◌, refl, ap, true, Option, none, some, List, [], ◌∷◌, ◌++◌, ◌==◌, if◌then◌else◌,
  ==_refl, length, count_if, arith,
}
use os_transport.Memory.{Asked, Memory, Holds}
use os_transport.Pool.{
  RequestContext, ThreadPoolTask, TaskCompleteCb, QueuedTask, ThreadPool, has_req,
}
use os_transport.Pool.Requests.{find_req_context}
use os_transport.Pool.Select.{select_best_worker}
use os_transport.Pool.Accounting.{
  queued-le-load, pending_of, pending, load, IsValid, Changes-IsValid,
}
use os_transport.Pool.Submit.{
  thread_pool_submit_batch_tasks, submit_to, finish_batch, same_request, validate_and_select_worker,
  attach_batch,
}
use os_transport.Pool.Submit.Nodes.{build_batch_nodes-Builds, Builds, wrap_all}
use os_transport.Pool.Submit.Steps.{
  select_best_worker-lt, Validates, validate-Validates, count-wrap_all, length-wrap_all,
  ids-IsValid, attach_batch-Changes,
}
use os_transport.Pool.Queue.Laws.{IsCounted, SameThread}
use os_transport.Pool.Contract.{SameFlags, ids_from}
use os_transport.Pool.Submit.Context.{
  find-attach-refused, find-attach-new, find-attach-found, attach-refused, attach-new, attach-found,
  attach_batch-Attaches, new_context,
}
use os_transport.Pool.Queue.{attach_nodes_to_worker}
use os_transport.Pool.Submit.Attach.{attached}

module _ {A S : Type 0} where
  -- What became of the context of request `r`, after a batch of `n` tasks that worker `idx` has got:
  -- the one that was there counts `n` tasks more; or there was none, and the new one counts `n` and has
  -- the batch's callback; or there was none and there is none, since `malloc` refused it. In the first
  -- two cases the books are right.
  abbrev pub Recorded :
      (p : ThreadPool A S) (r idx n : ℕ)
      → Option (TaskCompleteCb A S)
      → Option A
      → Memory
      → ThreadPool A S
      → Memory
      → Type 0
  Recorded p r idx n bcb bdata m p' m' =
      ((c : RequestContext A S) × (find_req_context p r ≡ some c)
        × (find_req_context p' r ≡ some (record c { pending_count = c.pending_count + n }))
        × Holds (1 + 3 * n) m m'
        × IsValid p')
      ⊎ ((find_req_context p r ≡ none)
          × (find_req_context p' r ≡ some (new_context r idx n bcb bdata))
          × Holds (2 + 3 * n) m m'
          × IsValid p')
      ⊎ ((find_req_context p r ≡ none)
          × (m.grants (m.requests + (1 + 3 * n)) ≡ false)
          × (find_req_context p' r ≡ none)
          × Holds (1 + 3 * n) m m')

  -- What a submission of the batch `t ∷ ts` that returns ids has done.
  pub record Submits (p : ThreadPool A S) (t : ThreadPoolTask A S) (ts : List (ThreadPoolTask A S))
      (cb bcb : Option (TaskCompleteCb A S)) (user_data bdata : Option A) (m : Memory)
      (ids : List ℕ) (p' : ThreadPool A S) (m' : Memory) : Type 0 where
    pub runs : p.is_running ≡ true
    pub same : same_request t.request_id ts ≡ true
    pub idx : ℕ
    pub chosen : select_best_worker p ≡ some idx
    pub queue :
        (p'.workers idx).queue
        ≡ (p.workers idx).queue ++ wrap_all t.request_id cb user_data p.next_task_id (t ∷ ts)
    pub counted : IsCounted (p'.workers idx)
    pub thread : SameThread (p.workers idx) (p'.workers idx)
    pub others : (j : ℕ) → j ≢ idx → p'.workers j ≡ p.workers j
    pub numbered : ids ≡ ids_from p.next_task_id (t ∷ ts)
    pub elsewhere : (k : ℕ) → k ≢ t.request_id → find_req_context p' k ≡ find_req_context p k
    pub flags : SameFlags p p'
    pub recorded : Recorded p t.request_id idx (length (t ∷ ts)) bcb bdata m p' m'

  -- The batch `t ∷ ts` for the worker `i` that was chosen, of a pool whose books are right and that has
  -- room for it, with its nodes built: `m0` is the memory before the call and `m` the memory now.
  module _ (p : ThreadPool A S) (t : ThreadPoolTask A S) (ts : List (ThreadPoolTask A S))
      (cb bcb : Option (TaskCompleteCb A S)) (user_data bdata : Option A) (v : IsValid p)
      (room : load p + length (t ∷ ts) < 2 ^ 32) (i : ℕ) (chosen : select_best_worker p ≡ some i)
      (n : ℕ) (m0 m : Memory)
      (asked : Asked (1 + 3 * length (t ∷ ts)) (1 + 3 * length (t ∷ ts)) m0 m) where
    abbrev r : ℕ
    r = t.request_id

    abbrev len : ℕ
    len = length (t ∷ ts)

    abbrev q : ThreadPool A S
    q = record p { next_task_id = n }

    abbrev nodes : List (QueuedTask A S)
    nodes = wrap_all r cb user_data p.next_task_id (t ∷ ts)

    abbrev attached_pool : ThreadPool A S
    attached_pool = (attach_batch q r i nodes len bcb bdata m).0

    same_find : find_req_context q r ≡ find_req_context p r
    unfolding find_req_context
    same_find = refl

    attached-IsValid :
        (find_req_context q r ≡ none → m.grants m.requests ≡ true) → IsValid attached_pool
    attached-IsValid granted =
        let lt = select_best_worker-lt p i chosen in
        let vq = ids-IsValid p n v in
        let long = length-wrap_all r cb user_data p.next_task_id (t ∷ ts) in
        let all : (k : ℕ) → count_if (has_req k) nodes ≡ (if r == k then len else 0) =
          λ k. count-wrap_all r k cb user_data p.next_task_id (t ∷ ts) in
        Changes-IsValid q i (attached q vq i lt r len nodes long (omega arith) all room) _ lt vq (
          attach_batch-Changes q vq i lt r len nodes long (omega arith) all room bcb bdata m
            granted)

    more_counted :
        (ctx : RequestContext A S)
        → find_req_context q r ≡ some ctx
        → (ctx.pending_count + len) % 2 ^ 32 ≡ ctx.pending_count + len
    more_counted ctx found =
        let e : ctx.pending_count ≡ pending p r = ap pending_of (sym (sym same_find ∙ found)) in
        omega (arith, e, v.accounted r, queued-le-load p r, room)

    attached-Recorded :
        Recorded p r i len bcb bdata m0 attached_pool (attach_batch q r i nodes len bcb bdata m).1
    attached-Recorded = elim (Option-cases (find_req_context q r)) [
      | inr (ctx, found) ↦ inl (
        ctx,
        sym same_find ∙ found,
        find-attach-found q i r len nodes bcb bdata m (v.indexed i) ctx found
            ∙ ap (λ k. some (record ctx { pending_count = k })) (more_counted ctx found),
        rw (attach-found q i r len nodes bcb bdata m (v.indexed i) ctx found) (asked.2),
        attached-IsValid (λ absent. absurd (ground (arith, absent, found))),
      )
      | inl absent ↦ elim (Bool-cases (m.grants m.requests)) [
        | inl granted ↦ inr (
            inl (
              sym same_find ∙ absent,
              find-attach-new q i r len nodes bcb bdata m (v.indexed i) absent granted,
              rw (attach-new q i r len nodes bcb bdata m (v.indexed i) absent granted)
                  (rw granted (omega (arith, asked.2))),
              attached-IsValid (λ e. granted),
            ))
        | inr refused ↦ inr (
            inr (
              sym same_find ∙ absent,
              rw (asked.0, asked.1) at refused,
              find-attach-refused q i r len nodes bcb bdata m (v.indexed i) absent refused,
              rw (attach-refused q i r len nodes bcb bdata m (v.indexed i) absent refused)
                  (rw refused (omega (arith, asked.2))),
            ))
      ]
    ]

    attached-Submits :
        p.is_running ≡ true
        → same_request r ts ≡ true
        → Submits p t ts cb bcb user_data bdata m0
            (ids_from p.next_task_id (t ∷ ts))
            attached_pool
            (attach_batch q r i nodes len bcb bdata m).1
    unfolding find_req_context
    attached-Submits runs same =
        let att = attach_batch-Attaches q i r len nodes bcb bdata m (v.indexed i) in
        record {
          runs = runs;
          same = same;
          idx = i;
          chosen = chosen;
          queue = rw (att.workers i, ==_refl i) (unfold attach_nodes_to_worker in refl);
          counted =
              rw (att.workers i, ==_refl i)
                (unfold attach_nodes_to_worker in rw length-append (omega (arith, v.counted i)));
          thread =
              rw (att.workers i, ==_refl i)
                (unfold attach_nodes_to_worker in (refl, refl, refl, refl));
          others = λ j ne. rw (att.workers j) (ground arith);
          numbered = refl;
          elsewhere = att.elsewhere;
          flags = att.flags;
          recorded = attached-Recorded;
        }

  -- What a submission of the batch `t ∷ ts` returns and does.
  abbrev pub SubmitOutcome :
      (p : ThreadPool A S) (t : ThreadPoolTask A S) (ts : List (ThreadPoolTask A S))
      → (cb bcb : Option (TaskCompleteCb A S)) → (user_data bdata : Option A) → Memory
      → Option (List ℕ) × Option (ThreadPool A S) × Memory
      → Type 0
  SubmitOutcome p t ts cb bcb user_data bdata m (none, out, m') =
      (n : ℕ) × (out ≡ some (record p { next_task_id = n })) × Holds 0 m m'
  SubmitOutcome p t ts cb bcb user_data bdata m (some ids, out, m') =
      (p' : ThreadPool A S) × (out ≡ some p') × Submits p t ts cb bcb user_data bdata m ids p' m'

  module _ (p : ThreadPool A S) (t : ThreadPoolTask A S) (ts : List (ThreadPoolTask A S))
      (cb bcb : Option (TaskCompleteCb A S)) (user_data bdata : Option A) (m : Memory)
      (v : IsValid p) (room : load p + length (t ∷ ts) < 2 ^ 32) where
    built_outcome :
        (i : ℕ) (m1 : Memory)
        → Validates p t ts m (some (t.request_id, i), m1)
        → (b : Option (List (QueuedTask A S) × List ℕ) × ThreadPool A S × Memory)
        → Builds t.request_id cb user_data p (t ∷ ts) [] [] m1 b
        → SubmitOutcome p t ts cb bcb user_data bdata m
            (finish_batch t.request_id i (length (t ∷ ts)) bcb bdata b)
    unfolding finish_batch
    built_outcome i m1 c (none, p2, m2) b = (b.0.0, ap some b.0.1, omega (arith, b.1, c.4))
    built_outcome i m1 c (some (nodes, ids), p2, m2) b =
        rw (b.1, b.2, b.0.1)
          (
            _,
            refl,
            attached-Submits p t ts cb bcb user_data bdata v room i c.3 b.0.0 m m2
                (rw (b.3.0) (c.4.0), omega (arith, b.3.1, c.4.1), omega (arith, b.3.2, c.4.2)) c.0
                c.2,
          )

    chosen_outcome :
        (c : Option (ℕ × ℕ) × Memory)
        → Validates p t ts m c
        → SubmitOutcome p t ts cb bcb user_data bdata m
            (submit_to p (t ∷ ts) cb user_data bcb bdata c)
    unfolding submit_to
    chosen_outcome (none, m1) c = (p.next_task_id, refl, c)
    chosen_outcome (some (r, i), m1) c = rw (c.1) (
        built_outcome i m1 (c.0, refl, rw (c.1) at (c.2), c.3, c.4) _
          (build_batch_nodes-Builds t.request_id cb user_data p (t ∷ ts) [] [] m1))

    -- A batch of at least one task, on a pool whose books are right and that would hold fewer than
    -- 2^32 tasks with it. Either `thread_pool_submit_batch_tasks` returns NULL, the pool is as
    -- before but for the ids to come, and no block is lost. Or it returns ids, one for each task,
    -- that count up from the next one; then the pool ran, the tasks were of one request, and behind
    -- what the worker that `select_best_worker` chose had in its queue there is, for each task in
    -- order, a task that runs its function on its argument and then the callback with its id. The
    -- worker's counter is right, and all else at that worker, all other workers, all other contexts
    -- and the flags are as before. The request's context counts the new tasks, or is a new one with
    -- that worker, the number of the tasks and the batch's callback, and the books are right again;
    -- or there was no context, `malloc` refused one, and there is none. The blocks held more are
    -- three for each task, one for the ids, and one for a new context.
    pub thread_pool_submit_batch_tasks-SubmitOutcome :
        SubmitOutcome p t ts cb bcb user_data bdata m
          (thread_pool_submit_batch_tasks (some p) (t ∷ ts) cb user_data bcb bdata m)
    unfolding thread_pool_submit_batch_tasks
    thread_pool_submit_batch_tasks-SubmitOutcome =
        chosen_outcome (validate_and_select_worker p (t ∷ ts) m) (validate-Validates p t ts m)
