-- ===== src/Manager/Halves.antt =====
-- `executor_ready` and `register_or_execute_non_blocking_task` of src/task/manager.rs, a call to a
-- ring buffer or to a channel at a time, so that two threads may interleave theirs.
use hooch.Base.{ℕ, zero, suc, ◌≡◌, none, some, if◌then◌else◌, Exec, done, ◌>>=◌}
use hooch.Ring
use hooch.DashMap.{DashMap}
use hooch.Task.{Task, has_aborted}
use hooch.Manager.{
  Scheduler, wait_for_task, send_task, wait_for_executor, with_tasks, with_executors,
}

-- Where an executor stands in `executor_ready`.
pub data ReadyPc : Type 0 where
  asking : ReadyPc
  parking : ReadyPc
  sending : Task → ReadyPc
  returned : ReadyPc

-- Where a thread stands in `register_or_execute_non_blocking_task`.
pub data SubmitPc : Type 0 where
  arriving : Task → SubmitPc
  seeking : Task → SubmitPc
  queueing : Task → SubmitPc
  sending : ℕ → Task → SubmitPc
  returned : SubmitPc

module _ (D : DashMap ℕ) where
  open D use {Map}

  unfoldable pub ready_access : ℕ → ReadyPc → Scheduler Map → Exec (ReadyPc × Scheduler Map)
  ready_access e ReadyPc.asking s = do
    (next, ring) ← Ring.pop s.manager.waiting_tasks
    done (
      elim next [
        | none ↦ ReadyPc.parking
        | some t ↦ if has_aborted s.aborts t then ReadyPc.asking else ReadyPc.sending t
      ],
      with_tasks s ring,
    )
  ready_access e ReadyPc.parking s = do s' ← wait_for_task D s e; done (ReadyPc.returned, s')
  ready_access e (ReadyPc.sending t) s = do s' ← send_task D s e t; done (ReadyPc.returned, s')
  ready_access e ReadyPc.returned s = done (ReadyPc.returned, s)

  unfoldable pub submit_access : SubmitPc → Scheduler Map → Exec (SubmitPc × Scheduler Map)
  submit_access (SubmitPc.arriving t) s =
      done (if has_aborted s.aborts t then SubmitPc.returned else SubmitPc.seeking t, s)
  submit_access (SubmitPc.seeking t) s = do
    (exec, ring) ← Ring.pop s.manager.waiting_executors
    done (
      elim exec [ none ↦ SubmitPc.queueing t | some e ↦ SubmitPc.sending e t ],
      with_executors s ring,
    )
  submit_access (SubmitPc.queueing t) s = do
    s' ← wait_for_executor D s t
    done (SubmitPc.returned, s')
  submit_access (SubmitPc.sending e t) s = do s' ← send_task D s e t; done (SubmitPc.returned, s')
  submit_access SubmitPc.returned s = done (SubmitPc.returned, s)

  -- Calls that no other thread interrupts.
  unfoldable pub submit_alone : ℕ → SubmitPc → Scheduler Map → Exec (SubmitPc × Scheduler Map)
  submit_alone zero pc s = done (pc, s)
  submit_alone (suc k) pc s = do (pc', s') ← submit_access pc s; submit_alone k pc' s'

  unfoldable pub ready_alone : ℕ → ℕ → ReadyPc → Scheduler Map → Exec (ReadyPc × Scheduler Map)
  ready_alone zero e pc s = done (pc, s)
  ready_alone (suc k) e pc s = do (pc', s') ← ready_access e pc s; ready_alone k e pc' s'

  -- One executor that asks for work, and one thread that submits a task.
  pub record Pair : Type 0 where
    pub sched : Scheduler Map
    pub executor : ReadyPc
    pub submitter : SubmitPc

  pub data Step (e : ℕ) (p : Pair) : Pair → Type 0 where
    executor_moves :
        {pc : ReadyPc} {s : Scheduler Map}
        → ready_access e p.executor p.sched ≡ done (pc, s)
        → Step e p (record { sched = s; executor = pc; submitter = p.submitter })
    submitter_moves :
        {pc : SubmitPc} {s : Scheduler Map}
        → submit_access p.submitter p.sched ≡ done (pc, s)
        → Step e p (record { sched = s; executor = p.executor; submitter = pc })

  pub data Reach (e : ℕ) (p : Pair) : Pair → Type 0 where
    here : Reach e p p
    later : {q r : Pair} → Reach e p q → Step e q r → Reach e p r
