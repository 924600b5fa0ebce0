-- ===== src/Pool/Queue/Laws.antt =====
-- The queue of a worker in src/os_transport_thread_pool.c as a sequence of tasks.
use os_transport.Base.{
  keep-append, count_if-le, ==_refl, ==→eq, count_if-append, Bool-cases, ap, ℕ, suc, ◌+◌, ◌-◌, ◌*◌,
  ◌%◌, ◌^◌, ◌<◌, ◌≡◌, refl, Option, none, some, List, [], ◌∷◌, ◌++◌, false, inl, inr, ◌==◌,
  if◌then◌else◌, length, count_if, keep, length-append, arith,
}
use os_transport.Memory.{free, Memory}
use os_transport.Pool.{QueuedTask, WorkerThread, has_req, other_req}
use os_transport.Pool.Queue.{
  unlink_first, worker_queue_pop_by_req, cancel_loop, cancel_in_worker_queue,
}

module _ {A S : Type 0} where
  -- The counter of a worker says how many nodes its list has.
  abbrev pub IsCounted : WorkerThread A S → Type 0
  IsCounted w = w.queue_size ≡ length w.queue % 2 ^ 32

  -- `task` is the first task of the request in `ts`, and `left` is `ts` without it.
  pub record IsFirst (req_id : ℕ) (ts : List (QueuedTask A S)) (task : QueuedTask A S)
      (left : List (QueuedTask A S)) : Type 0 where
    pub before : List (QueuedTask A S)
    pub behind : List (QueuedTask A S)
    pub whole : ts ≡ before ++ task ∷ behind
    pub rest : left ≡ before ++ behind
    pub fits : task.request_id ≡ req_id
    pub none_before : count_if (has_req req_id) before ≡ 0

  -- What the search returns on every list.
  abbrev pub Unlinks :
      ℕ → List (QueuedTask A S) → Option (QueuedTask A S × List (QueuedTask A S)) → Type 0
  Unlinks req_id ts none = count_if (has_req req_id) ts ≡ 0
  Unlinks req_id ts (some (task, left)) = IsFirst req_id ts task left

  unlink_first_skip :
      (r : ℕ) (t : QueuedTask A S) (ts : List (QueuedTask A S))
      (o : Option (QueuedTask A S × List (QueuedTask A S)))
      → (t.request_id == r) ≡ false
      → Unlinks r ts o
      → Unlinks r (t ∷ ts) (elim o [ none ↦ none | some (found, left) ↦ some (found, t ∷ left) ])
  unlink_first_skip r t ts none e h = rw e h
  unlink_first_skip r t ts (some (task, left)) e h = record {
    before = t ∷ h.before;
    behind = h.behind;
    whole = ap (λ l. t ∷ l) h.whole;
    rest = ap (λ l. t ∷ l) h.rest;
    fits = h.fits;
    none_before = rw e h.none_before;
  }

  pub unlink_first_lem : (r : ℕ) (ts : List (QueuedTask A S)) → Unlinks r ts (unlink_first r ts)
  unfolding unlink_first
  unlink_first_lem r [] = refl
  unlink_first_lem r (t ∷ ts) = elim (Bool-cases (t.request_id == r)) [
    | inl e ↦ rw e (record {
      before = [];
      behind = ts;
      whole = refl;
      rest = refl;
      fits = ==→eq t.request_id r e;
      none_before = refl;
    })
    | inr e ↦ rw e (unlink_first_skip r t ts (unlink_first r ts) e (unlink_first_lem r ts))
  ]

  -- What taking the first task of a request leaves of each request.
  pub count-IsFirst :
      {r : ℕ} {ts : List (QueuedTask A S)} {task : QueuedTask A S} {left : List (QueuedTask A S)}
      → IsFirst r ts task left
      → (k : ℕ) → count_if (has_req k) ts ≡ count_if (has_req k) left + (if r == k then 1 else 0)
  count-IsFirst {r} {task = task} f k =
      rw (f.whole, f.rest, count_if-append, count_if-append)
        (ground (arith, f.fits, ==→eq task.request_id k, ==_refl k))

  pub length-IsFirst :
      {r : ℕ} {ts : List (QueuedTask A S)} {task : QueuedTask A S} {left : List (QueuedTask A S)}
      → IsFirst r ts task left
      → length ts ≡ suc (length left)
  length-IsFirst f = rw (f.whole, f.rest, length-append, length-append) (omega arith)

  -- What stays of the worker when its queue changes.
  abbrev pub SameThread : WorkerThread A S → WorkerThread A S → Type 0
  SameThread w w' =
      (w'.tid ≡ w.tid)
      × (w'.state ≡ w.state)
      × (w'.worker_idx ≡ w.worker_idx)
      × (w'.pending_req ≡ w.pending_req)

  abbrev pub Pops :
      ℕ → WorkerThread A S → Memory → Option (QueuedTask A S) × WorkerThread A S × Memory → Type 0
  Pops r w m (none, w', m') = (count_if (has_req r) w.queue ≡ 0) × (w' ≡ w) × (m' ≡ m)
  Pops r w m (some task, w', m') =
      IsFirst r w.queue task w'.queue × SameThread w w' × IsCounted w' × (m' ≡ free 1 m)

  pop_cases :
      (r : ℕ) (w : WorkerThread A S) (m : Memory)
      (o : Option (QueuedTask A S × List (QueuedTask A S)))
      → IsCounted w
      → Unlinks r w.queue o
      → Pops r w m (elim o [
        | none ↦ (none, w, m)
        | some (task, left) ↦ (
          some task,
          record w { queue = left; queue_size = (w.queue_size + 2 ^ 32 - 1) % 2 ^ 32 },
          free 1 m,
        )
      ])
  pop_cases r w m none c h = (h, refl, refl)
  pop_cases r w m (some (task, left)) c h =
      (h, (refl, refl, refl, refl), omega (arith, length-IsFirst h), refl)

  -- A worker whose counter is right: `worker_queue_pop_by_req` returns the first task of the request
  -- and takes out that task alone, keeps the order of all others and the counter right, and frees one
  -- block; or no task of the request is in the queue and nothing changes.
  pub worker_queue_pop_by_req-Pops :
      (r : ℕ) (w : WorkerThread A S) (m : Memory)
      → IsCounted w
      → Pops r w m (worker_queue_pop_by_req w r m)
  unfolding worker_queue_pop_by_req
  worker_queue_pop_by_req-Pops r w m c =
      pop_cases r w m (unlink_first r w.queue) c (unlink_first_lem r w.queue)

  cancel_loop_lem :
      (r : ℕ) (ts : List (QueuedTask A S)) (n : ℕ)
      → n < 2 ^ 32
      → ((cancel_loop r ts n).0 ≡ keep (other_req r) ts)
        × ((cancel_loop r ts n).1 ≡ (n + count_if (has_req r) ts) % 2 ^ 32)
  unfolding cancel_loop
  cancel_loop_lem r [] n h = (refl, omega arith)
  cancel_loop_lem r (t ∷ ts) n h = elim (Bool-cases (t.request_id == r)) [
    | inl e ↦
        let (kept, counted) = cancel_loop_lem r ts ((n + 1) % 2 ^ 32) (omega arith) in
        rw e (kept, omega arith)
    | inr e ↦ let (kept, counted) = cancel_loop_lem r ts n h in rw e (ap (λ l. t ∷ l) kept, counted)
  ]

  count-keep_other :
      (r k : ℕ) (ts : List (QueuedTask A S))
      → count_if (has_req k) (keep (other_req r) ts)
        ≡ (if r == k then 0 else count_if (has_req k) ts)
  count-keep_other r k [] = ground arith
  count-keep_other r k (t ∷ ts) = ground (arith, count-keep_other r k ts)

  pub length-keep_other :
      (r : ℕ) (ts : List (QueuedTask A S))
      → length (keep (other_req r) ts) + count_if (has_req r) ts ≡ length ts
  length-keep_other r [] = omega arith
  length-keep_other r (t ∷ ts) = ground (arith, length-keep_other r ts)

  -- What a cancellation of request `r` does to a worker and the memory.
  pub record Cancels (r : ℕ) (w : WorkerThread A S) (m : Memory) (removed : ℕ)
      (w' : WorkerThread A S) (m' : Memory) : Type 0 where
    pub number : removed ≡ count_if (has_req r) w.queue
    pub queue : w'.queue ≡ keep (other_req r) w.queue
    pub left :
        (k : ℕ)
        → count_if (has_req k) w'.queue ≡ (if r == k then 0 else count_if (has_req k) w.queue)
    pub same : SameThread w w'
    pub counted : IsCounted w'
    pub freed : m' ≡ free (3 * removed) m

  -- A worker whose counter is right and that holds fewer than 2^32 tasks: `cancel_in_worker_queue`
  -- removes exactly the tasks of the request, keeps all others in order, returns how many went, keeps
  -- the counter right and frees three blocks for each.
  pub cancel_in_worker_queue-Cancels :
      (r : ℕ) (w : WorkerThread A S) (m : Memory)
      → IsCounted w
      → length w.queue < 2 ^ 32
      → let (n, w', m') = cancel_in_worker_queue w r m in Cancels r w m n w' m'
  unfolding cancel_in_worker_queue
  cancel_in_worker_queue-Cancels r w m c small =
      let (kept, counted) = cancel_loop_lem r w.queue 0 (omega arith) in
      let total = count_if-le (has_req r) w.queue in
      let number : (cancel_loop r w.queue 0).1 ≡ count_if (has_req r) w.queue = omega arith in
      record {
        number = number;
        queue = kept;
        left = λ k. rw kept (count-keep_other r k w.queue);
        same = (refl, refl, refl, refl);
        counted = rw kept (omega (arith, length-keep_other r w.queue));
        freed = ap (λ n. free n m) (omega arith);
      }

  unlink_first-append :
      (r : ℕ) (before : List (QueuedTask A S)) (task : QueuedTask A S)
      (behind : List (QueuedTask A S))
      → count_if (has_req r) before ≡ 0
      → task.request_id ≡ r
      → unlink_first r (before ++ task ∷ behind) ≡ some (task, before ++ behind)
  unfolding unlink_first
  unlink_first-append r [] task behind clear fits = rw (fits, ==_refl r) refl
  unlink_first-append r (b ∷ bs) task behind clear fits = elim (Bool-cases (b.request_id == r)) [
    | inl e ↦ absurd (ground (arith, e, clear))
    | inr e ↦ rw (e, unlink_first-append r bs task behind (ground (arith, e, clear)) fits) refl
  ]

  -- The search finds the first task of the request, wherever it is.
  pub unlink_first-IsFirst :
      {r : ℕ} {ts : List (QueuedTask A S)} {task : QueuedTask A S} {left : List (QueuedTask A S)}
      → IsFirst r ts task left
      → unlink_first r ts ≡ some (task, left)
  unlink_first-IsFirst {r} {task = task} f =
      rw (f.whole, f.rest) (unlink_first-append r f.before task f.behind f.none_before f.fits)

  pub keep_none :
      (r : ℕ) (ts : List (QueuedTask A S))
      → count_if (has_req r) ts ≡ 0
      → (keep (has_req r) ts ≡ []) × (keep (other_req r) ts ≡ ts)
  keep_none r [] clear = (refl, refl)
  keep_none r (t ∷ ts) clear = elim (Bool-cases (t.request_id == r)) [
    | inl e ↦ absurd (ground (arith, e, clear))
    | inr e ↦
        let (mine, others) = keep_none r ts (ground (arith, e, clear)) in
        rw e (mine, ap (λ l. t ∷ l) others)
  ]

  -- The first task of the request stands first among its tasks, and no other task goes with it.
  pub keep-IsFirst :
      {r : ℕ} {ts : List (QueuedTask A S)} {task : QueuedTask A S} {left : List (QueuedTask A S)}
      → IsFirst r ts task left
      → (keep (has_req r) ts ≡ task ∷ keep (has_req r) left)
        × (keep (other_req r) ts ≡ keep (other_req r) left)
  keep-IsFirst {r} {task = task} f =
      let (mine, others) = keep_none r f.before f.none_before in
      rw (f.whole, f.rest, keep-append, keep-append, keep-append, keep-append, mine)
        (rw (f.fits, ==_refl r) (refl, refl))
