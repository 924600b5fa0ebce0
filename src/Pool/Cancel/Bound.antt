-- ===== src/Pool/Cancel/Bound.antt =====
-- A cancellation in src/os_transport_thread_pool.c of a request that has a context: the queue of the
-- worker that is bound to it, and update_context_after_cancel.
use os_transport.Base.{
  ==_ne, false, ◌∙◌, keep, ◌*◌, ==_refl, ==→eq, ℕ, ◌+◌, ◌-◌, ◌%◌, ◌^◌, ◌<◌, ◌≡◌, ◌≢◌, refl, ap,
  true, none, some, inl, inr, ◌==◌, if◌then◌else◌, length, count_if, Bool-cases, arith,
}
use os_transport.Memory.{free, Memory}
use os_transport.Pool.{
  other_req, WorkerThread, RequestContext, ThreadPool, set_worker, worker_count, has_req,
}
use os_transport.Pool.Requests.{find_req_context}
use os_transport.Pool.Queue.Laws.{SameThread, Cancels, length-keep_other}
use os_transport.Pool.Accounting.{
  find-settle, settle-SameRest, find-set_worker, pending, pending_of, load, IsValid, Changes,
  Changes-IsValid, settle, settle-IsUnique, pending-settle, settle-IsLive, settle-workers,
  queued-le-load, count-le-queued,
}
use os_transport.Pool.Contract.{SameRest}
use os_transport.Pool.Cancel.{cancelled, update_context_after_cancel}

module _ {A S : Type 0} where
  after_cancel-pool :
      (p : ThreadPool A S) (ctx : RequestContext A S) (r n : ℕ) (m : Memory)
      → (update_context_after_cancel p ctx r n m).0
        ≡ settle p r ((ctx.pending_count + 2 ^ 32 - n) % 2 ^ 32)
  unfolding update_context_after_cancel settle
  after_cancel-pool p ctx r n m = ground arith

  after_cancel-last :
      (p : ThreadPool A S) (ctx : RequestContext A S) (r n : ℕ) (m : Memory)
      → ((ctx.pending_count + 2 ^ 32 - n) % 2 ^ 32 == 0) ≡ true
      → (update_context_after_cancel p ctx r n m).1 ≡ free 1 m
  unfolding update_context_after_cancel
  after_cancel-last p ctx r n m e = rw e refl

  after_cancel-left :
      (p : ThreadPool A S) (ctx : RequestContext A S) (r n : ℕ) (m : Memory)
      → ((ctx.pending_count + 2 ^ 32 - n) % 2 ^ 32 == 0) ≡ false
      → (update_context_after_cancel p ctx r n m).1 ≡ m
  unfolding update_context_after_cancel
  after_cancel-left p ctx r n m e = rw e refl

  -- A request with a context, in a pool whose books are right.
  module _ (p : ThreadPool A S) (v : IsValid p) (r : ℕ) (ctx : RequestContext A S)
      (found : find_req_context p r ≡ some ctx) where
    abbrev bound : ℕ
    bound = ctx.worker_idx

    bound-lt : bound < worker_count
    bound-lt = (v.live r ctx found).1

    -- The number of tasks that the request has left, and the blocks that `n` of its tasks and, with the
    -- last of them, its context held.
    abbrev pub remaining : ℕ → ℕ
    remaining n = pending p r - n

    abbrev pub blocks_of : ℕ → ℕ
    blocks_of n = if n == pending p r then 3 * n + 1 else 3 * n

    module _ (n : ℕ) (w : WorkerThread A S) (m m' : Memory)
        (c : Cancels r (p.workers bound) m n w m') where
      abbrev fewer : ℕ
      fewer = (ctx.pending_count + 2 ^ 32 - n) % 2 ^ 32

      fewer_lem : fewer + n ≡ pending p r
      fewer_lem =
          let e = ap pending_of found in
          omega (
            arith,
            v.accounted r,
            queued-le-load p r,
            v.bounded,
            c.number,
            count-le-queued p r bound bound-lt,
          )

      shorter : load p + length w.queue < 2 ^ 32 + length (p.workers bound).queue
      shorter =
          omega (arith, v.bounded, ap length c.queue, length-keep_other r (p.workers bound).queue)

      untouched-Changes : n ≡ 0 → Changes p bound w (set_worker p bound w)
      unfolding find_req_context
      untouched-Changes z = record {
        workers = λ j. refl;
        indexed = rw (c.same.2) (v.indexed bound);
        counted = c.counted;
        unique = v.unique;
        live = v.live;
        balanced = λ k. ground (arith, c.left k, c.number, ==→eq r k);
        bounded = shorter;
      }

      some_pending : 0 < pending p r
      some_pending = let e = ap pending_of found in omega (arith, (v.live r ctx found).0)

      settled-remaining : pending (settle (set_worker p bound w) r fewer) r + n ≡ pending p r
      unfolding find_req_context
      settled-remaining = ground (
        arith,
        pending-settle (set_worker p bound w) r fewer r ctx v.unique found,
        fewer_lem,
        ==_refl r,
      )

      settled-Changes : Changes p bound w (settle (set_worker p bound w) r fewer)
      unfolding find_req_context
      settled-Changes = record {
        workers = λ j. rw settle-workers refl;
        indexed = rw (c.same.2) (v.indexed bound);
        counted = c.counted;
        unique = settle-IsUnique (set_worker p bound w) r fewer v.unique;
        live = settle-IsLive (set_worker p bound w) r fewer v.unique v.live;
        balanced = λ k. ground (
          arith,
          pending-settle (set_worker p bound w) r fewer k ctx v.unique found,
          c.left k,
          c.number,
          fewer_lem,
          ==→eq r k,
        );
        bounded = shorter;
      }

      counted_off : fewer ≡ remaining n
      counted_off = omega (arith, fewer_lem)

      found_with : find_req_context (set_worker p bound w) r ≡ some ctx
      found_with = find-set_worker p bound w r ∙ found

      untouched-context :
          n ≡ 0
          → find_req_context (set_worker p bound w) r
            ≡ (if n == pending p r then none else some (record ctx { pending_count = remaining n }))
      untouched-context z =
          let e : ctx.pending_count ≡ remaining n = omega (arith, z, ap pending_of found) in
          found_with
          ∙ rw (==_ne n (pending p r) (omega (arith, z, some_pending)))
              (ap (λ k. some (record ctx { pending_count = k })) e)

      settled-context :
          find_req_context (settle (set_worker p bound w) r fewer) r
          ≡ (if n == pending p r then none else some (record ctx { pending_count = remaining n }))
      settled-context =
          find-settle (set_worker p bound w) r r fewer v.unique ∙ (elim (Bool-cases (fewer == 0)) [
            | inl e ↦ rw (==_refl r, e) (ground (arith, ==→eq fewer 0 e, fewer_lem))
            | inr e ↦
                rw (==_refl r, e, found_with, ==_ne n (pending p r) (ground (arith, e, fewer_lem)))
                  (ap (λ k. some (record ctx { pending_count = k })) counted_off)
          ])

      untouched-freed : n ≡ 0 → m' ≡ free (blocks_of n) m
      untouched-freed z =
          c.freed
          ∙ ap (λ k. free k m) (rw (==_ne n (pending p r) (omega (arith, z, some_pending))) refl)

      settled-freed :
          (update_context_after_cancel (set_worker p bound w) ctx r n m').1 ≡ free (blocks_of n) m
      settled-freed = elim (Bool-cases (fewer == 0)) [
        | inl e ↦
            let last : n ≡ pending p r = omega (arith, ==→eq fewer 0 e, fewer_lem) in
            after_cancel-last (set_worker p bound w) ctx r n m' e
            ∙ rw (c.freed)
                (ap (λ k. record m { frees = k }) (ground (arith, last, ==_refl (pending p r))))
        | inr e ↦
            after_cancel-left (set_worker p bound w) ctx r n m' e
            ∙ c.freed
            ∙ ap (λ k. free k m) (rw (==_ne n (pending p r) (ground (arith, e, fewer_lem))) refl)
      ]

    -- The call returns the number of the request's tasks in the queue of the worker that its context
    -- names, takes them out and nothing else, counts them off in the context, which goes with the last
    -- task of the request, and keeps the books of the pool right.
    pub record CancelsBound (n : ℕ) (p' : ThreadPool A S) (m m' : Memory) : Type 0 where
      pub number : n ≡ count_if (has_req r) (p.workers bound).queue
      pub others : (j : ℕ) → j ≢ bound → p'.workers j ≡ p.workers j
      pub queue : (p'.workers bound).queue ≡ keep (other_req r) (p.workers bound).queue
      pub thread : SameThread (p.workers bound) (p'.workers bound)
      pub context :
          find_req_context p' r
          ≡ (if n == pending p r then none else some (record ctx { pending_count = remaining n }))
      pub elsewhere : (k : ℕ) → k ≢ r → find_req_context p' k ≡ find_req_context p k
      pub rest : SameRest p p'
      pub freed : m' ≡ free (blocks_of n) m
      pub valid : IsValid p'

    pub cancel_split :
        (n : ℕ) (w : WorkerThread A S) (m m' : Memory)
        → Cancels r (p.workers bound) m n w m'
        → let (k, p', m'') = cancelled p ctx r (n, w, m') in CancelsBound n p' m m''
    unfolding cancelled
    cancel_split n w m m' c = elim (Bool-cases (n == 0)) [
      | inl z ↦ rw z (record {
        number = c.number;
        others = λ j ne. ground arith;
        queue = rw (==_refl bound) (c.queue);
        thread = rw (==_refl bound) (c.same);
        context = untouched-context n w m m' c (==→eq n 0 z);
        elsewhere = λ k ne. find-set_worker p bound w k;
        rest = ((refl, refl, refl), refl);
        freed = untouched-freed n w m m' c (==→eq n 0 z);
        valid =
            Changes-IsValid p bound w (set_worker p bound w) bound-lt v
              (untouched-Changes n w m m' c (==→eq n 0 z));
      })
      | inr nz ↦
          rw (nz, after_cancel-pool)
            (record {
              number = c.number;
              others = λ j ne. rw settle-workers (ground arith);
              queue = rw settle-workers (rw (==_refl bound) (c.queue));
              thread = rw settle-workers (rw (==_refl bound) (c.same));
              context = settled-context n w m m' c;
              elsewhere = λ k ne.
                  find-settle (set_worker p bound w) r k (fewer n w m m' c) v.unique
                  ∙ rw (==_ne r k (omega (arith, ne))) (find-set_worker p bound w k);
              rest = settle-SameRest (set_worker p bound w) r (fewer n w m m' c);
              freed = settled-freed n w m m' c;
              valid =
                  Changes-IsValid p bound w (settle (set_worker p bound w) r (fewer n w m m' c))
                    bound-lt v (settled-Changes n w m m' c);
            })
    ]
