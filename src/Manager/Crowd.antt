-- ===== src/Manager/Crowd.antt =====
-- Any number of threads that submit tasks, and of executors, which make their calls of
-- src/task/manager.rs an access at a time, in any order.
use hooch.Base.{ℕ, true, ◌+◌, ◌≡◌, ◌<◌, update, done, ok}
use hooch.SyncChannel
use hooch.SyncChannel.{SyncChannel}
use hooch.DashMap.{DashMap}
use hooch.Task.{Task}
use hooch.Manager.{Scheduler, ExecutorTask, task}
use hooch.Manager.Halves.{ReadyPc, SubmitPc, ready_access, submit_access}
use hooch.Manager.Owners.{one_at}
use hooch.Manager.Hands.{refused, passed_over}

-- Where an executor stands in `run`.
pub data ExecutorPc : Type 0 where
  receiving : ExecutorPc
  polling : Task → ExecutorPc
  calling : ReadyPc → ExecutorPc

-- By the address of a task's future: how often the task has been submitted, how often it has been
-- polled, and how often the manager has dropped it because its flag was set.
pub record Crowd (M : Type 0) : Type 0 where
  pub sched : Scheduler M
  pub submitters : ℕ → SubmitPc
  pub executors : ℕ → ExecutorPc
  pub submitted : ℕ → ℕ
  pub polled : ℕ → ℕ
  pub dropped : ℕ → ℕ

-- Before the first call.
abbrev pub quiet : {M : Type 0} → Scheduler M → Crowd M
quiet s = record {
  sched = s;
  submitters = λ i. SubmitPc.returned;
  executors = λ e. receiving;
  submitted = λ ptr. 0;
  polled = λ ptr. 0;
  dropped = λ ptr. 0;
}

module _ (D : DashMap ℕ) (n m : ℕ) where
  open D use {Map}

  -- Threads 0 to `n` - 1 submit tasks, by spawning or waking them, and executors 0 to `m` - 1 run.
  -- Flags are set at any time.
  pub data Step (q : Crowd Map) : Crowd Map → Type 0 where
    submitter_begins :
        (i : ℕ) (t : Task)
        → i < n
        → q.submitters i ≡ SubmitPc.returned
        → Step q (record q {
          submitters = update q.submitters i (SubmitPc.arriving t);
          submitted = λ ptr. q.submitted ptr + one_at ptr t;
        })
    submitter_moves :
        (i : ℕ) {pc : SubmitPc} {s : Scheduler Map}
        → i < n
        → submit_access D (q.submitters i) q.sched ≡ done (pc, s)
        → Step q (record q {
          sched = s;
          submitters = update q.submitters i pc;
          dropped = λ ptr. q.dropped ptr + refused q.sched.aborts (q.submitters i) ptr;
        })
    executor_receives :
        (e : ℕ) (t : Task) {c : SyncChannel ExecutorTask}
        → e < m
        → q.executors e ≡ receiving
        → SyncChannel.recv (q.sched.channels e) ≡ done (ok (task t), c)
        → Step q (record q {
          sched = record (q.sched) { channels = update q.sched.channels e c };
          executors = update q.executors e (polling t);
        })
    executor_polls :
        (e : ℕ) (t : Task)
        → e < m
        → q.executors e ≡ polling t
        → Step q (record q {
          executors = update q.executors e (calling ReadyPc.asking);
          polled = λ ptr. q.polled ptr + one_at ptr t;
        })
    executor_moves :
        (e : ℕ) {pc pc' : ReadyPc} {s : Scheduler Map}
        → e < m
        → q.executors e ≡ calling pc
        → ready_access D e pc q.sched ≡ done (pc', s)
        → Step q (record q {
          sched = s;
          executors = update q.executors e (calling pc');
          dropped = λ ptr. q.dropped ptr + passed_over q.sched pc ptr;
        })
    executor_returns :
        (e : ℕ)
        → e < m
        → q.executors e ≡ calling ReadyPc.returned
        → Step q (record q { executors = update q.executors e receiving })
    -- `JoinHandle::abort` sets the flag at address `a`.
    aborts :
        (a : ℕ)
        → Step q (record q { sched = record (q.sched) { aborts = update q.sched.aborts a true } })

  pub data Reach (q : Crowd Map) : Crowd Map → Type 0 where
    here : Reach q q
    later : {p r : Crowd Map} → Reach q p → Step p r → Reach q r
