-- ===== src/Lib.antt =====
-- os_transport moves large buffers between two machines over URMA: a request is split into chunks of
-- 2 MB, one task for each chunk waits in a queue of a pool of 64 threads, and the completion of a
-- chunk wakes the thread of the request for the next task. This library models the C program and
-- proves what its parts promise to one another.
--
-- The parts, and the files that model them:
--
-- * UserData models the 64-bit word of four bit fields that travels with every work request
--   (include/os_transport.h, include/os_transport_thread_pool_internal.h).
-- * Types has the structures of include/os_transport.h, include/os_transport_internal.h and
--   include/os_transport_urma.h that the parts hand to one another.
-- * Split models common_split_chunks, send_split_chunks and recv_split_chunks of src/os_transport.c.
-- * Pool and its children model src/os_transport_thread_pool.c: Pool.Requests the hash table of the
--   request contexts, Pool.Queue the queue of a worker, Pool.Select select_best_worker, Pool.Submit
--   the submission of a task and of a batch, Pool.Worker the loop of a worker thread and
--   thread_pool_wake_up_worker_by_req_id, Pool.Cancel the cancellation of a request, Pool.Lifecycle
--   thread_pool_init, thread_pool_start and thread_pool_destroy. Pool.Accounting has the invariant, and
--   Pool.Contract what a caller relies on, said without the program's code.
-- * Urma models src/os_transport_urma.c on top of Platform, the calls of URMA and CUDA.
-- * Sync models the object on which a caller waits: mark_task_group_completed and
--   wait_for_task_complete of src/os_transport.c.
-- * Transport and its children model the rest of src/os_transport.c: Transport.Tasks what a task
--   does, Transport.Register how the tasks of a request are made and submitted, Transport.Request
--   os_transport_send, os_transport_recv, os_transport_wake_up_task and wait_and_free_sync,
--   Transport.Lifecycle os_transport_init, os_transport_reg_jfc and os_transport_destroy.
-- * Base has what all modules share, and Memory the allocator; Tests has runs on concrete values.
--
-- How state is modelled. A C function is a function from the state that it reads to its result and
-- the state that it leaves. The pool is a record of its workers, its hash table and its flags; the
-- state outside the pool, which the tasks' functions change, is a type parameter. A linked list is
-- the list of what its nodes hold, and an array a function of the index. Integers are natural
-- numbers, with the wrap-around of their C type written out wherever the program computes.
-- malloc, pthread_create and the calls of URMA and CUDA are parameters that may answer anything.
-- Memory counts the blocks that were obtained and freed.
--
-- Concurrency. An operation that holds a lock for its whole effect is one step. A round of a worker
-- is one step because a worker holds its lock while it runs a task. What the threads do together is a
-- sequence of such steps, and the invariant of the pool, Pool.Accounting.IsValid, is stated of every
-- pool between two of them; a pool is taken to change only through these steps. The steps of a
-- submission are taken together.
--
-- Loops are recursion on the list or on the number of rounds that are left, so nothing needs fuel.
-- Bounds: the invariant has fewer than 2^32 tasks in the pool, so that queue_size and pending_count
-- do not overflow; the lengths of transfers and the keys are 32-bit numbers, as in the C code.
--
-- Not modelled: the log, which the program does not read; the mock event queue, which is compiled for
-- tests only; the creation and the deletion of mutexes and condition variables, but for the calls of
-- which the program tests the result; the pointers queue_head and queue_tail, of which only the list
-- between them is kept; races inside an operation that takes several locks one after another; the
-- programs in test/.
pub mod Base
pub mod Memory
pub mod UserData
pub mod Types
pub mod Split
pub mod Pool
pub mod Platform
pub mod Urma
pub mod Sync
pub mod Transport
mod Tests
