-- ===== src/Pool/Worker/Completion.antt =====
-- The tasks of a request of src/os_transport_thread_pool.c, run one after another by one wake-up for
-- each.
use os_transport.Pool.{idle, other_req, has_req, RequestContext, QueuedTask, ThreadPool}
use os_transport.Pool.Requests.{find_req_context}
use os_transport.Pool.Accounting.{pending_of, queued, IsValid}
use os_transport.Memory.{free, Memory}
use os_transport.Pool.Worker.Task.{after_task}
use os_transport.Pool.Worker.Progress.{wake_up-Runs, Runs}
use os_transport.Pool.Worker.{worker_round, thread_pool_wake_up_worker_by_req_id}
use os_transport.Pool.Queue.{unlink_first}
use os_transport.Pool.Queue.Laws.{keep-IsFirst, keep_none, IsFirst, count-IsFirst, unlink_first_lem}
use os_transport.Pool.Requests.Laws.{with_pending}
use os_transport.Pool.Contract.{told, SameRest}
use os_transport.Base.{
  [], ◌∷◌, refl, ==_ne, sym, false, true, subst, keep, ◌==◌, ◌∷◌, ==_refl, inr, inl, Option-cases,
  ap, count_if, List, ℕ, zero, suc, ◌-◌, ◌<◌, ◌≡◌, ◌≢◌, ◌∙◌, some, none, arith,
}

module _ {A S : Type 0} where
  -- `n` times a wake-up for request `r`, each with the round that worker `i` makes then.
  unfoldable pub serve :
      (n : ℕ) → ThreadPool A S → (r i : ℕ) → S → Memory → ThreadPool A S × S × Memory
  serve zero p r i s m = (p, s, m)
  serve (suc n) p r i s m =
      let (ret, p1) = thread_pool_wake_up_worker_by_req_id p r in
      let (p2, s2, m2) = worker_round p1 i s m in serve n p2 r i s2 m2

  -- The tasks `ts`, each with its argument, one after another in this order; the node of each is given
  -- back before it runs, and the task after.
  abbrev pub run_in_order : List (QueuedTask A S) → S × Memory → S × Memory
  run_in_order [] w = w
  run_in_order (t ∷ ts) (s, m) =
      let (ret, (s', m')) = t.task_func t.task_arg (s, free 1 m) in run_in_order ts (s', free 1 m')

  -- The request is over, and nothing else has changed: the worker that its context `ctx` named has
  -- lost the tasks of the request and no other task, and waits.
  pub record Served (p : ThreadPool A S) (r : ℕ) (ctx : RequestContext A S) (p' : ThreadPool A S)
      : Type 0 where
    pub gone : find_req_context p' r ≡ none
    pub emptied : queued p' r ≡ 0
    pub queue :
        (p'.workers ctx.worker_idx).queue ≡ keep (other_req r) (p.workers ctx.worker_idx).queue
    pub state : (p'.workers ctx.worker_idx).state ≡ idle
    pub served : (p'.workers ctx.worker_idx).pending_req ≡ 0
    pub tid : (p'.workers ctx.worker_idx).tid ≡ (p.workers ctx.worker_idx).tid
    pub others : (j : ℕ) → j ≢ ctx.worker_idx → p'.workers j ≡ p.workers j
    pub elsewhere : (k : ℕ) → k ≢ r → find_req_context p' k ≡ find_req_context p k
    pub rest : SameRest p p'
    pub valid : IsValid p'

  -- What the tasks `ts` of the request, and then the callback of its batch, have made of the state and
  -- the memory, with the context given back.
  abbrev pub Completes :
      RequestContext A S → List (QueuedTask A S) → S → Memory → S → Memory → Type 0
  Completes ctx ts s m s' m' =
      let (s1, m1) = run_in_order ts (s, m) in
      (s' ≡ told ctx.batch_cb 0 true ctx.batch_user_data s1) × (m' ≡ free 1 m1)

  -- All of it, for the result of `serve`.
  abbrev pub Ends :
      ThreadPool A S
      → (r : ℕ) → RequestContext A S
      → S
      → Memory
      → ThreadPool A S × S × Memory
      → Type 0
  Ends p r ctx s m (p', s', m') =
      Served p r ctx p'
      × Completes ctx (keep (has_req r) (p.workers ctx.worker_idx).queue) s m s' m'

  rest_trans : (p q o : ThreadPool A S) → SameRest p q → SameRest q o → SameRest p o
  rest_trans p q o a b = ((b.0.0 ∙ a.0.0, b.0.1 ∙ a.0.1, b.0.2 ∙ a.0.2), b.1 ∙ a.1)

  module _ (p : ThreadPool A S) (r : ℕ) (ctx : RequestContext A S) (task : QueuedTask A S)
      (left : List (QueuedTask A S)) (q : ThreadPool A S) (s s1 : S) (m m1 : Memory)
      (first : IsFirst r (p.workers ctx.worker_idx).queue task left)
      (run : Runs p r ctx task left q) (ws : s1 ≡ (after_task ctx task s (free 1 m)).0)
      (wm : m1 ≡ (after_task ctx task s (free 1 m)).1) where
    abbrev mine_of : ThreadPool A S → List (QueuedTask A S)
    mine_of o = keep (has_req r) (o.workers ctx.worker_idx).queue

    worlds_first :
        (ctx.pending_count == 1) ≡ false
        → run_in_order (mine_of p) (s, m) ≡ run_in_order (mine_of q) (s1, m1)
    worlds_first more = rw ((keep-IsFirst first).0, run.queue, ws, wm, more) refl

    worlds_last :
        count_if (has_req r) left ≡ 0
        → let (ret, (s', m')) = task.task_func task.task_arg (s, free 1 m) in
          run_in_order (mine_of p) (s, m) ≡ (s', free 1 m')
    worlds_last clear = rw ((keep-IsFirst first).0, (keep_none r left clear).0) refl

    -- One more task of the request in front of those that are served.
    serve_first :
        (ctx.pending_count == 1) ≡ false
        → (o : ThreadPool A S × S × Memory)
        → Ends q r (with_pending (ctx.pending_count - 1) ctx) s1 m1 o
        → Ends p r ctx s m o
    serve_first more (o, s', m') (rest, (es, em)) = (
      record {
        gone = rest.gone;
        emptied = rest.emptied;
        queue = rest.queue ∙ rw (run.queue) (sym (keep-IsFirst first).1);
        state = rest.state;
        served = rest.served;
        tid = rest.tid ∙ run.tid;
        others = λ j ne. rest.others j ne ∙ run.others j ne;
        elsewhere = λ k ne. rest.elsewhere k ne ∙ run.elsewhere k ne;
        rest = rest_trans p q o run.rest rest.rest;
        valid = rest.valid;
      },
      (
        es ∙ ap (λ w. told ctx.batch_cb 0 true ctx.batch_user_data w.0) (sym (worlds_first more)),
        em ∙ ap (λ w. free 1 w.1) (sym (worlds_first more)),
      ),
    )

    -- The request was at its last task.
    serve_last :
        (ctx.pending_count == 1) ≡ true
        → count_if (has_req r) left ≡ 0
        → Ends p r ctx s m (q, s1, m1)
    serve_last last clear =
        let (mine, others) = keep_none r left clear in
        let gone : find_req_context q r ≡ none = run.context ∙ rw last refl in
        (
          record {
            gone = gone;
            emptied = omega (arith, run.valid.accounted r, ap pending_of gone);
            queue = run.queue ∙ sym ((keep-IsFirst first).1 ∙ others);
            state = run.state;
            served = run.served;
            tid = run.tid;
            others = run.others;
            elsewhere = run.elsewhere;
            rest = run.rest;
            valid = run.valid;
          },
          (
            ws
                ∙ rw last (
                    ap (λ w. told ctx.batch_cb 0 true ctx.batch_user_data w.0)
                      (sym (worlds_last clear))),
            wm ∙ rw last (ap (λ w. free 1 w.1) (sym (worlds_last clear))),
          ),
        )

  queue-IsFirst :
      (r : ℕ) (ts : List (QueuedTask A S))
      → 0 < count_if (has_req r) ts
      → (task : QueuedTask A S) × (left : List (QueuedTask A S)) × IsFirst r ts task left
        × (suc (count_if (has_req r) left) ≡ count_if (has_req r) ts)
  queue-IsFirst r ts some_there = elim (Option-cases (unlink_first r ts)) [
    | inl absent ↦ absurd (omega (arith, rw absent at (unlink_first_lem r ts)))
    | inr ((task, left), found) ↦
        let first : IsFirst r ts task left = rw found at (unlink_first_lem r ts) in
        (task, left, first, ground (arith, count-IsFirst first r, ==_refl r))
  ]

  serve_lem :
      (n : ℕ) (p : ThreadPool A S) (v : IsValid p) (r : ℕ) (ctx : RequestContext A S)
      → find_req_context p r ≡ some ctx
      → r ≢ 0
      → ctx.pending_count ≡ suc n
      → count_if (has_req r) (p.workers ctx.worker_idx).queue ≡ suc n
      → (s : S) (m : Memory) → Ends p r ctx s m (serve (suc n) p r ctx.worker_idx s m)
  unfolding serve
  serve_lem zero p v r ctx found ne long all s m =
      let i = ctx.worker_idx in
      let (task, left, first, fewer) = queue-IsFirst r (p.workers i).queue (omega arith) in
      let (ret, ws, wm, run) = wake_up-Runs p v r ctx found ne task left first s m in
      serve_last p r ctx task left _ s _ m _ first run ws wm (rw long refl) (omega arith)
  serve_lem (suc k) p v r ctx found ne long all s m =
      let i = ctx.worker_idx in
      let (task, left, first, fewer) = queue-IsFirst r (p.workers i).queue (omega arith) in
      let (ret, ws, wm, run) = wake_up-Runs p v r ctx found ne task left first s m in
      let more : (ctx.pending_count == 1) ≡ false = ==_ne ctx.pending_count 1 (omega arith) in
      let after : find_req_context _ r ≡ some (with_pending (ctx.pending_count - 1) ctx) =
        run.context ∙ rw more refl in
      serve_first p r ctx task left _ s _ m _ first run ws wm more _ (
        serve_lem k _ run.valid r (with_pending (ctx.pending_count - 1) ctx) after ne (omega arith)
          (rw (run.queue) (omega arith)) _ _)

  -- A request, not 0, of a pool whose books are right, with a context, and all of whose tasks wait at
  -- the worker that the context names: as many wake-ups as the context counts, each with a round of that
  -- worker, run the tasks of the request in the order of the queue, each once and with its argument,
  -- and then the callback of its batch, and give back what they held. The request's context is gone and
  -- none of its tasks is in a queue; the worker has lost no other task and waits; no other worker, no
  -- other request's context and no flag of the pool has changed, and the books are right.
  pub serve-Ends :
      (p : ThreadPool A S) (v : IsValid p) (r : ℕ) (ctx : RequestContext A S)
      → find_req_context p r ≡ some ctx
      → r ≢ 0
      → count_if (has_req r) (p.workers ctx.worker_idx).queue ≡ ctx.pending_count
      → (s : S) (m : Memory) → Ends p r ctx s m (serve ctx.pending_count p r ctx.worker_idx s m)
  serve-Ends p v r ctx found ne all s m =
      let n = ctx.pending_count - 1 in
      let long : ctx.pending_count ≡ suc n = omega (arith, (v.live r ctx found).0) in
      let whole = serve_lem n p v r ctx found ne long (all ∙ long) s m in
      subst (λ k. Ends p r ctx s m (serve k p r ctx.worker_idx s m)) (sym long) whole
