-- ===== src/Transport/Register/Laws.antt =====
-- The tasks of a send of src/os_transport.c.
use os_transport.Transport.Register.{PoolTask, send_tasks, TaskFunc}
use os_transport.Transport.{send_arg, recv_arg, TaskArg}
use os_transport.Types.{WriteInfo, ChunkInfo}
use os_transport.Transport.Tasks.{construct_send_task_arg, construct_worker_task}
use os_transport.Pool.Submit.{same_request}
use os_transport.Base.{
  ==_refl, map, ℕ, zero, suc, ◌+◌, ◌≡◌, refl, Bool, true, false, List, [], ◌∷◌, length, arith,
}

-- The chunk that a task argument names, and whether it is marked as the last.
abbrev pub chunk_of : TaskArg → ChunkInfo
chunk_of (send_arg sync chunk is_last_chunk info) = chunk
chunk_of (recv_arg sync chunk is_last_chunk info) = chunk

abbrev pub is_last : TaskArg → Bool
is_last (send_arg sync chunk is_last_chunk info) = is_last_chunk
is_last (recv_arg sync chunk is_last_chunk info) = is_last_chunk

-- The marks of `n` tasks, of which the last alone is marked.
abbrev pub last_marks : ℕ → List Bool
last_marks zero = []
last_marks (suc zero) = true ∷ []
last_marks (suc (suc n)) = false ∷ last_marks (suc n)

module _ {N : Type 0} (task_func : TaskFunc N) (sync : ℕ) where
  -- What the pool and the other side need of the tasks `tasks` for the chunks `chunks`.
  pub record CarryOut (r : ℕ) (chunks : List ChunkInfo) (tasks : List (PoolTask N)) : Type 0 where
    pub one_request : same_request r tasks ≡ true
    pub in_order : map (λ t. chunk_of t.task_arg) tasks ≡ chunks
    pub marks : map (λ t. is_last t.task_arg) tasks ≡ last_marks (length chunks)

  same_request-send_tasks :
      (info : WriteInfo) (chunks : List ChunkInfo) (n i : ℕ)
      → same_request info.user_ctx_server.request_id (send_tasks n i chunks task_func info sync)
        ≡ true
  unfolding send_tasks construct_worker_task same_request
  same_request-send_tasks info [] n i = refl
  same_request-send_tasks info (c ∷ cs) n i =
      rw (==_refl info.user_ctx_server.request_id) (same_request-send_tasks info cs n (suc i))

  -- The tasks for the last chunks of a send, those from the index `i` on, are of one request, one
  -- for each chunk, in the order of the chunks, and the last of them alone is marked as the last.
  pub send_tasks-CarryOut :
      (info : WriteInfo) (chunks : List ChunkInfo) (n i : ℕ)
      → i + length chunks ≡ n
      → CarryOut info.user_ctx_server.request_id chunks (send_tasks n i chunks task_func info sync)
  unfolding send_tasks construct_worker_task construct_send_task_arg same_request
  send_tasks-CarryOut info [] n i e = record { one_request = refl; in_order = refl; marks = refl }
  send_tasks-CarryOut info (c ∷ []) n i e = record {
    one_request = same_request-send_tasks info (c ∷ []) n i;
    in_order = refl;
    marks = ground arith;
  }
  send_tasks-CarryOut info (c ∷ d ∷ cs) n i e =
      let rest = send_tasks-CarryOut info (d ∷ cs) n (suc i) (omega arith) in
      record {
        one_request = same_request-send_tasks info (c ∷ d ∷ cs) n i;
        in_order = rw (rest.in_order) refl;
        marks = rw (rest.marks) (ground arith);
      }
