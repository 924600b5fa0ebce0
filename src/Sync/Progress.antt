-- ===== src/Sync/Progress.antt =====
-- What the waiting caller of src/os_transport.c learns from the marks of the workers.
use os_transport.Base.{
  ◌∙◌, ==_ne, ℕ, suc, ◌+◌, ◌%◌, ◌^◌, ◌≤◌, ◌<◌, ◌≡◌, refl, Bool, true, false, Option, none, some,
  List, [], ◌∷◌, ◌&&◌, ◌==◌, if◌then◌else◌, length, minus_one, arith,
}
use os_transport.Sync.{TaskSync, mark_task_group_completed, wait_for_task_complete}

-- The marks of the workers, one after another.
unfoldable pub mark_all : Option TaskSync → List Bool → Option TaskSync
mark_all sync [] = sync
mark_all sync (b ∷ bs) = mark_all (mark_task_group_completed sync b) bs

abbrev pub all_good : List Bool → Bool
all_good [] = true
all_good (b ∷ bs) = b && all_good bs

-- What the caller should be told when the tasks of a request of `n` tasks have ended as in `bs`.
abbrev pub verdict : ℕ → List Bool → Option ℕ
verdict n bs = if all_good bs then if length bs == n then some 0 else none else some minus_one

-- A request of which a task has failed, and with at most as many marks to come as leave one missing.
after_failure :
    (sync : TaskSync) (bs : List Bool)
    → sync.request_completed ≡ true
    → sync.completed_tasks + length bs < sync.total_tasks
    → sync.total_tasks < 2 ^ 64
    → wait_for_task_complete (mark_all (some sync) bs) ≡ some minus_one
unfolding mark_all mark_task_group_completed wait_for_task_complete
after_failure sync [] over room small = ground arith
after_failure sync (false ∷ bs) over room small =
    after_failure (record sync { request_completed = true }) bs refl (omega arith) small
after_failure sync (true ∷ bs) over room small =
    rw (==_ne ((sync.completed_tasks + 1) % 2 ^ 64) sync.total_tasks (omega arith), mark_all)
      (after_failure (record sync { completed_tasks = (sync.completed_tasks + 1) % 2 ^ 64 }) bs over
        (omega arith) small)

-- A request of which `k` tasks have succeeded and none has failed.
after_some :
    (sync : TaskSync) (bs : List Bool) (k n : ℕ)
    → sync.request_completed ≡ false
    → sync.completed_tasks ≡ k
    → sync.total_tasks ≡ n
    → k < n
    → n < 2 ^ 64
    → k + length bs ≤ n
    → wait_for_task_complete (mark_all (some sync) bs)
      ≡ (if all_good bs then if k + length bs == n then some 0 else none else some minus_one)
unfolding mark_all mark_task_group_completed wait_for_task_complete
after_some sync [] k n open_ done total lt small room = ground arith
after_some sync (true ∷ []) k n open_ done total lt small room = ground arith
after_some sync (true ∷ b ∷ bs) k n open_ done total lt small room =
    rw (==_ne ((sync.completed_tasks + 1) % 2 ^ 64) sync.total_tasks (omega arith), mark_all)
      (after_some (record sync { completed_tasks = (sync.completed_tasks + 1) % 2 ^ 64 }) (b ∷ bs)
          (suc k) n open_ (omega arith) total (omega arith) small (omega arith)
        ∙ ground arith)
after_some sync (false ∷ bs) k n open_ done total lt small room =
    after_failure (record sync { request_completed = true }) bs refl (omega arith) (omega arith)

-- A request of `n` tasks, 0 < n < 2^64, of which as many have ended as `bs` says, at most `n`, in
-- this order: `wait_for_task_complete` returns -1 as soon as one of them has failed; it returns 0 if
-- all `n` have succeeded; otherwise it waits.
pub wait-mark_all :
    (sync : TaskSync) (bs : List Bool) (n : ℕ)
    → sync.request_completed ≡ false
    → sync.completed_tasks ≡ 0
    → sync.total_tasks ≡ n
    → 0 < n
    → n < 2 ^ 64
    → length bs ≤ n
    → wait_for_task_complete (mark_all (some sync) bs) ≡ verdict n bs
wait-mark_all sync bs n open_ done total pos small room =
    after_some sync bs 0 n open_ done total pos small (omega arith) ∙ ground arith
