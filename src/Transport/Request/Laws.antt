-- ===== src/Transport/Request/Laws.antt =====
-- What a caller of wait_and_free_sync in src/os_transport.c gets.
use os_transport.Transport.{World, TaskArg, System, Handle}
use os_transport.Pool.{ThreadPool}
use os_transport.Sync.{wait_for_task_complete, TaskSync, TaskGroup}
use os_transport.Pool.Accounting.{IsValid}
use os_transport.Memory.{free, Memory}
use os_transport.Transport.Request.{owned_blocks, wait_and_free_sync}
use os_transport.Pool.Cancel.{thread_pool_cancel_tasks_by_req}
use os_transport.Pool.Cancel.Laws.{CancelOutcome, thread_pool_cancel_tasks_by_req-CancelOutcome}
use os_transport.Base.{
  ap, ◌+◌, ℕ, ◌≡◌, ◌≢◌, ◌⊎◌, inl, inr, refl, true, false, Option, none, some, ◌==◌, ==→eq,
  minus_one, Bool-cases, arith,
}

-- What a request with a task group holds: the group, its array of tasks, its array of arguments, the
-- object on which the caller waits, and its array of chunks, if it has one.
abbrev pub held : TaskSync → ℕ
held sync = 4 + (elim sync.chunks [ none ↦ 0 | some chunks ↦ 1 ])

module _ {N : Type 0} where
  -- What the call leaves, by what it returns: `none` if the caller waits.
  abbrev pub WaitOutcome :
      (p : ThreadPool TaskArg (World N)) (v : IsValid p) (r : ℕ)
      → (sys : System N) (a : ℕ) → Option (ℕ × Option (Handle N) × System N)
      → Type 0
  WaitOutcome p v r sys a none = (sys.world.syncs a).request_completed ≡ false
  WaitOutcome p v r sys a (some (ret, none, sys')) = true ≡ false
  WaitOutcome p v r sys a (some (ret, some h', sys')) =
      let sync = sys.world.syncs a in
      (sync.request_completed ≡ true)
      × (sys'.world ≡ sys.world)
      × (sys'.g_inited ≡ sys.g_inited)
      × (p' : ThreadPool TaskArg (World N)) × (h'.thread_pool ≡ some p')
      × IsValid p'
      × (((ret ≡ 0)
            × (sync.completed_tasks ≡ sync.total_tasks)
            × (p' ≡ p)
            × (sys'.memory ≡ free (held sync) sys.memory))
          ⊎ ((ret ≡ minus_one)
              × (sync.completed_tasks ≢ sync.total_tasks)
              × (n : ℕ) × (m : Memory) × CancelOutcome p v r (n, some p', m) sys.memory
              × (sys'.memory ≡ free (held sync) m)))

  module _ (h : Handle N) (a : ℕ) (sys : System N) (p : ThreadPool TaskArg (World N))
      (g : TaskGroup) (group : (sys.world.syncs a).task_group ≡ some g) where
    abbrev handle : Handle N
    handle = record h { thread_pool = some p }

    abbrev sync : TaskSync
    sync = sys.world.syncs a

    abbrev cancel : ℕ × Option (ThreadPool TaskArg (World N)) × Memory
    cancel = thread_pool_cancel_tasks_by_req (some p) g.first_request_id sys.memory

    wait_open :
        sync.request_completed ≡ false → wait_and_free_sync (some handle) (some a) sys ≡ none
    unfolding wait_and_free_sync wait_for_task_complete
    wait_open o = rw (group, o, wait_and_free_sync) refl

    wait_done :
        sync.request_completed ≡ true
        → (sync.completed_tasks == sync.total_tasks) ≡ true
        → wait_and_free_sync (some handle) (some a) sys
          ≡ some (0, some handle, record sys { memory = free (owned_blocks sync) sys.memory })
    unfolding wait_and_free_sync wait_for_task_complete
    wait_done o e = rw (group, o, e, wait_and_free_sync) refl

    wait_failed :
        sync.request_completed ≡ true
        → (sync.completed_tasks == sync.total_tasks) ≡ false
        → wait_and_free_sync (some handle) (some a) sys
          ≡ some (
            minus_one,
            some (record handle { thread_pool = cancel.1 }),
            record sys { memory = free (owned_blocks sync) cancel.2 },
          )
    unfolding wait_and_free_sync wait_for_task_complete
    wait_failed o e = rw (group, o, e, wait_and_free_sync) refl

    held_lem : owned_blocks sync ≡ held sync
    unfolding owned_blocks
    held_lem = rw (group) (ground arith)

    cancelled_pool :
        (v : IsValid p)
        → p.is_running ≡ true
        → (p' : ThreadPool TaskArg (World N)) × (cancel.1 ≡ some p')
          × IsValid p'
          × CancelOutcome p v g.first_request_id (cancel.0, some p', cancel.2) sys.memory
    cancelled_pool v run =
        elim (thread_pool_cancel_tasks_by_req-CancelOutcome p v g.first_request_id sys.memory run) [
          | inl (absent, n, out, m, q) ↦ (p, out, v, inl (absent, n, refl, m, q))
          | inr (ctx, found, p', out, c) ↦ (p', out, c.valid, inr (ctx, found, p', refl, c))
        ]

    -- For a handle with a running pool whose books are right, and a request with a task group: the
    -- caller waits until `request_completed` is set. Then, if as many tasks have succeeded as the
    -- request has, the call returns 0, the pool is untouched, and what the request holds is given back,
    -- no more and no less. Otherwise it returns -1, and before what the request holds is given back its
    -- tasks are cancelled: the worker that is bound to it loses the tasks of the request and no other
    -- task, with their blocks given back, and the books are right. The shared state and the flag of the
    -- library stay as they are.
    pub wait_and_free_sync-WaitOutcome :
        (v : IsValid p)
        → p.is_running ≡ true
        → WaitOutcome p v g.first_request_id sys a
            (wait_and_free_sync (some (record h { thread_pool = some p })) (some a) sys)
    wait_and_free_sync-WaitOutcome v run = elim (Bool-cases sync.request_completed) [
      | inr o ↦ rw (wait_open o) o
      | inl o ↦ elim (Bool-cases (sync.completed_tasks == sync.total_tasks)) [
        | inl e ↦ rw (wait_done o e) (
          o,
          refl,
          refl,
          p,
          refl,
          v,
          inl (
            refl,
            ==→eq sync.completed_tasks sync.total_tasks e,
            refl,
            ap (λ n. free n sys.memory) held_lem,
          ),
        )
        | inr e ↦
            let (p', out, v', gone) = cancelled_pool v run in
            rw (wait_failed o e) (
              o,
              refl,
              refl,
              p',
              out,
              v',
              inr (
                refl,
                ground (arith, e),
                cancel.0,
                cancel.2,
                gone,
                ap (λ n. free n cancel.2) held_lem,
              ),
            )
      ]
    ]
