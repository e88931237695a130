-- ===== src/Lib.antt =====
-- hooch, an asynchronous runtime in Rust: executors fed by a task manager, a reactor that turns the
-- events of the operating system into wake-ups, a pool of threads for calls that block, channels,
-- timers, files and sockets.
--
-- The parts, with paths from the repository's root, and the files that model them:
--   * src/utils/ring_buffer.rs: Ring. `LockFreeBoundedRingBuffer` is the record `Ring`, and `push` and
--     `pop` run to their end; Ring/Atomic has one atomic access at a time. Ring/Queue is the FIFO that
--     the buffer promises.
--   * src/task/manager.rs and src/task/task.rs: Manager, Task and Waker. `Scheduler` holds the manager
--     with the channels to its executors. Manager/System says who may do what next, Manager/Halves
--     has the same methods an access at a time, and Manager/Crowd has any number of threads that make
--     these accesses while tasks are aborted. Waker has the wakers, with the counts of the references
--     to the tasks, and a round of an executor with them.
--   * src/executor.rs: Executor. `run`, and `forward_task` with the three ways a poll ends.
--   * src/runtime.rs, and `new_executor_spawner` of src/spawner.rs: Runtime. `World` is what a thread
--     that builds a runtime reaches. `run_blocking` is `start_blocking`, which submits the task, and
--     `end_blocking`, which takes its answer. Runtime/Jobs has `spawn`, and Runtime/Threads the body of
--     the threads that `build` starts for the executors.
--   * src/pool/thread_pool.rs: Pool.
--   * src/reactor.rs: Reactor. `on_event` is the body of the event loop.
--   * src/sync/mpsc/bounded_channel.rs: Channel. `Linked` is a channel with its reactor.
--     Channel/Threads has the same calls an access at a time, made by any number of threads.
--     Runtime/Delivery follows a message through channel, reactor, waker, manager and executor.
--   * src/spawner.rs: Spawner. src/time: Sleep and Timeout. src/fs/file.rs: File, and File/Read for
--     `read_to_string`. src/net: Net, and Net/Offload for `bind` and `connect`.
--     hooch-macro/src/lib.rs: MainAttr.
-- Alone sets the calls that are modelled an access at a time beside the calls as a whole.
-- The manager uses the ring buffer, Rust's channels (SyncChannel) and the package dashmap (DashMap);
-- the reactor uses the ring buffer; channels, files and sockets use the reactor, and files and
-- sockets the pool. Base has the numbers, lists and calls that all share; Tests has the theorems at
-- concrete values.
--
-- A call returns, panics, waits or has undefined behaviour (`Exec`). Numbers are natural numbers, and
-- a `usize` wraps at 2 ^ 64 where the code adds to it. A waker is the address of the task that it
-- wakes. Loops have fuel: `executor_ready` and the event loop have one round more than there are tasks
-- or tags in the buffer, and the results say that this is enough. The poll of a socket call has a turn
-- for each entry of a list, which says what other threads do to the reactor before the turn; the
-- results say how long a list is enough. `Executor.run` has as many rounds as its caller gives it.
--
-- Not modelled: the getters `TaskManager::id`, `Executor::id`, `Reactor::waker_token`, `mio_waker` and
-- `registry`, the dereferences of a `HoochFile`, the printing of errors, and src/select.rs and
-- src/blocker.rs, which hold comments only. The code of mio, nix, dashmap and the operating system is
-- a parameter.
pub mod Base
pub mod Ring
pub mod SyncChannel
pub mod DashMap
pub mod Task
pub mod Manager
pub mod Pool
pub mod Reactor
pub mod Mio
pub mod Channel
pub mod Runtime
pub mod Executor
pub mod Alone
pub mod Tests
pub mod Sleep
pub mod Timeout
pub mod Waker
pub mod File
pub mod Net
pub mod Spawner
pub mod MainAttr
