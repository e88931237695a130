-- ===== src/Manager.antt =====
-- src/task/manager.rs, `TaskManager`, and `ExecutorTask` of src/executor.rs. Each method runs to its
-- end; what interleaved methods do is in `Manager/Races`.
pub mod Waits
pub mod Ready
pub mod Submit
pub mod System
pub mod Invariant
pub mod Safety
pub mod Turn
pub mod Flags
pub mod Aborted
pub mod Fairness
pub mod Placed
pub mod Alone
pub mod Halves
pub mod Hands
pub mod Asking
pub mod Races
pub mod Owners
pub mod Crowd
pub mod Accesses
pub mod Moves
pub mod Turns
pub mod Conserved
use hooch.Base.{
  ℕ, zero, suc, ◌*◌, Bool, true, false, none, some, update, if◌then◌else◌, Exec, done, blocked,
  ◌>>=◌, unwrap, unwrap_some,
}
use hooch.Ring.{Ring}
use hooch.Ring
use hooch.SyncChannel
use hooch.SyncChannel.{SyncChannel}
use hooch.DashMap.{DashMap}
use hooch.Task.{Task, has_aborted}

pub data ExecutorTask : Type 0 where
  task : Task → ExecutorTask
  finished : ExecutorTask

-- An `ExecutorId` is its number.
pub record TaskManager (M : Type 0) : Type 0 where
  pub id : ℕ
  pub waiting_tasks : Ring Task
  pub waiting_executors : Ring ℕ
  pub executors : M

-- The manager with what it reaches through pointers: the channels behind the senders in `executors`,
-- by address, and the abort flags of the tasks.
pub record Scheduler (M : Type 0) : Type 0 where
  pub manager : TaskManager M
  pub channels : ℕ → SyncChannel ExecutorTask
  pub aborts : ℕ → Bool

abbrev pub waiting_bound : ℕ
waiting_bound = 128 * 1000

-- The scheduler after an access to one of the two ring buffers.
abbrev pub with_tasks : {M : Type 0} → Scheduler M → Ring Task → Scheduler M
with_tasks s ring = record s { manager = record (s.manager) { waiting_tasks = ring } }

abbrev pub with_executors : {M : Type 0} → Scheduler M → Ring ℕ → Scheduler M
with_executors s ring = record s { manager = record (s.manager) { waiting_executors = ring } }

module _ (D : DashMap ℕ) where
  open D use {Map, with_capacity, insert, get}

  -- What `TaskManager::get` puts into an empty cell.
  unfoldable pub new : ℕ → TaskManager Map
  new id = record {
    id = id;
    waiting_tasks = Ring.new waiting_bound;
    waiting_executors = Ring.new waiting_bound;
    executors = with_capacity 128;
  }

  -- `self.waiting_executors.push(executor_id).unwrap()`
  unfoldable pub wait_for_task : Scheduler Map → ℕ → Exec (Scheduler Map)
  wait_for_task s executor_id = do
    (res, ring) ← Ring.push s.manager.waiting_executors executor_id
    _ ← unwrap res
    done (with_executors s ring)

  -- `self.executors.get(&id).unwrap().send(ExecutorTask::Task(task)).unwrap()`
  unfoldable pub send_task : Scheduler Map → ℕ → Task → Exec (Scheduler Map)
  send_task s executor_id t = do
    sender ← unwrap_some (get executor_id s.manager.executors)
    (res, channel) ← SyncChannel.send (s.channels sender) (task t)
    _ ← unwrap res
    done (record s { channels = update s.channels sender channel })

  unfoldable pub register_executor : Scheduler Map → ℕ → ℕ → Exec (Scheduler Map)
  register_executor s executor_id executor_sender =
      wait_for_task
        (record s {
          manager = record (s.manager) {
            executors = insert executor_id executor_sender s.manager.executors;
          };
        })
        executor_id

  -- The `while let` of `executor_ready`, for a number of rounds. `blocked` stands for more rounds.
  unfoldable pub ready_loop : ℕ → Scheduler Map → ℕ → Exec (Scheduler Map)
  ready_loop zero s executor_id = blocked
  ready_loop (suc rounds) s executor_id = do
    (next, ring) ← Ring.pop s.manager.waiting_tasks
    let s' = with_tasks s ring
    elim next [
      | none ↦ wait_for_task s' executor_id
      | some t ↦ elim (has_aborted s.aborts t) [
        | true ↦ ready_loop rounds s' executor_id
        | false ↦ send_task s' executor_id t
      ]
    ]

  -- Each round takes one task out, so there is one round more than there are tasks.
  unfoldable pub executor_ready : Scheduler Map → ℕ → Exec (Scheduler Map)
  executor_ready s executor_id = ready_loop (suc s.manager.waiting_tasks.count) s executor_id

  -- `self.waiting_tasks.push(task).unwrap()`
  unfoldable pub wait_for_executor : Scheduler Map → Task → Exec (Scheduler Map)
  wait_for_executor s t = do
    (res, ring) ← Ring.push s.manager.waiting_tasks t
    _ ← unwrap res
    done (with_tasks s ring)

  unfoldable pub register_or_execute : Scheduler Map → Task → Exec (Scheduler Map)
  register_or_execute s t = if has_aborted s.aborts t then done s else do
    (exec, ring) ← Ring.pop s.manager.waiting_executors
    let s' = with_executors s ring
    elim exec [ none ↦ wait_for_executor s' t | some e ↦ send_task s' e t ]
