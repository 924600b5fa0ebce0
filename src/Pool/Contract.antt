-- ===== src/Pool/Contract.antt =====
-- What a caller of src/os_transport_thread_pool.c relies on, said without its code: what a queued
-- task does when it runs, who is told, which part of the pool stays as it is. It models no part of the
-- program.
use os_transport.Base.{ℕ, ◌+◌, ◌%◌, ◌^◌, ◌≡◌, true, false, Bool, Option, none, some, List, [], ◌∷◌}
use os_transport.Memory.{Memory, free}
use os_transport.Pool.{ThreadPoolTask, TaskCompleteCb, InternalTask, QueuedTask, ThreadPool}

module _ {A S : Type 0} where
  -- The outside state after a callback, if there is one.
  abbrev pub told : Option (TaskCompleteCb A S) → ℕ → Bool → Option A → S → S
  told cb task_id success user_data s = elim cb [
    | none ↦ s
    | some f ↦ f task_id success user_data s
  ]

  -- A queued task runs the caller's function on the caller's argument, tells the caller, and gives one
  -- block back.
  abbrev pub run_wrapped : InternalTask A S → S × Memory → ℕ × (S × Memory)
  run_wrapped t (s, m) =
      let (ret, s') = t.user_func t.user_arg s in
      (ret, (told t.complete_cb t.task_id t.success t.user_data s', free 1 m))

  -- The task that should be queued, with the id `id`, for the task `t` of a caller.
  abbrev pub wrapper :
      (id req_id : ℕ) → Option (TaskCompleteCb A S) → Option A → ThreadPoolTask A S → QueuedTask A S
  wrapper id req_id cb user_data t = record {
    task_id = id;
    request_id = req_id;
    task_func = run_wrapped;
    task_arg = record {
      user_func = t.task_func;
      user_arg = t.task_arg;
      complete_cb = cb;
      user_data = user_data;
      task_id = id;
      request_id = req_id;
      success = true;
    };
    is_completed = false;
    free_task_self = false;
  }

  -- The fields of the pool that no request touches.
  abbrev pub SameFlags : ThreadPool A S → ThreadPool A S → Type 0
  SameFlags p p' =
      (p'.is_running ≡ p.is_running)
      × (p'.is_destroying ≡ p.is_destroying)
      × (p'.urma_info ≡ p.urma_info)

  -- The same with the ids to come: what changes neither by running tasks nor by cancelling them.
  abbrev pub SameRest : ThreadPool A S → ThreadPool A S → Type 0
  SameRest p p' = SameFlags p p' × (p'.next_task_id ≡ p.next_task_id)

-- The ids of `ts`, one for each, that count up from `id` as a uint64_t does.
abbrev pub ids_from {ℓ} : {B : Type ℓ} → ℕ → List B → List ℕ
ids_from id [] = []
ids_from id (t ∷ ts) = id ∷ ids_from ((id + 1) % 2 ^ 64) ts
