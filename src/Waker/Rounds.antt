-- ===== src/Waker/Rounds.antt =====
-- A round of `Executor::run` (src/executor.rs) with the references to tasks that it takes, makes and
-- drops.
use hooch.Base.{
  ℕ, zero, suc, true, false, none, some, update, List, Exec, done, blocked, ◌>>=◌, ok, err,
}
use hooch.Ring
use hooch.SyncChannel
use hooch.DashMap.{DashMap}
use hooch.Task.{has_aborted}
use hooch.Manager.{task, finished, with_tasks, wait_for_task, send_task}
use hooch.Waker.{Arcs, arc_clone, arc_drop}
use hooch.Waker.Ops.{WakerOp, run}

module _ (D : DashMap ℕ) where
  open D use {Map}

  -- `executor_ready` (src/task/manager.rs), whose `continue` drops the task.
  unfoldable pub ready_loop : ℕ → Arcs Map → ℕ → Exec (Arcs Map)
  ready_loop zero s executor_id = blocked
  ready_loop (suc rounds) s executor_id = do
    (next, ring) ← Ring.pop s.sched.manager.waiting_tasks
    let s' = record s { sched = with_tasks s.sched ring }
    elim next [
      | none ↦ (do sched ← wait_for_task D s'.sched executor_id; done (record s' { sched = sched }))
      | some t ↦ elim (has_aborted s.sched.aborts t) [
        | true ↦ (do s'' ← arc_drop s' t.future; ready_loop rounds s'' executor_id)
        | false ↦ (do
          sched ← send_task D s'.sched executor_id t
          done (record s' { sched = sched }))
      ]
    ]

  unfoldable pub executor_ready : Arcs Map → ℕ → Exec (Arcs Map)
  executor_ready s executor_id = ready_loop (suc s.sched.manager.waiting_tasks.count) s executor_id

  -- `forward_task` once the lock is taken: a clone of the reference becomes the waker, the poll makes
  -- the calls `ops` on wakers, and at the end the waker and the reference are dropped.
  unfoldable pub forward_task : List WakerOp → Arcs Map → ℕ → Exec (Arcs Map)
  forward_task ops s ptr = do
    s1 ← arc_clone s ptr
    s2 ← run D ops s1
    s3 ← arc_drop s2 ptr
    arc_drop s3 ptr

  -- A round of `run` that receives a task.
  unfoldable pub round : ℕ → List WakerOp → Arcs Map → Exec (Arcs Map)
  round executor_id ops s = do
    (got, channel) ← SyncChannel.recv (s.sched.channels executor_id)
    let s' = record s {
      sched = record (s.sched) { channels = update s.sched.channels executor_id channel };
    }
    elim got [
      | err e ↦ done s'
      | ok finished ↦ done s'
      | ok (task t) ↦ (do s'' ← forward_task ops s' t.future; executor_ready s'' executor_id)
    ]
