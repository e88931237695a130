-- ===== src/Manager/System.antt =====
-- `TaskManager` (src/task/manager.rs) with the executors that it feeds (`Executor::run` of
-- src/executor.rs): who may do what next. Each method of the manager runs to its end.
use hooch.Base.{
  ℕ, ◌+◌, ◌≡◌, ◌≤◌, ◌<◌, ◌⊎◌, true, Option, none, some, List, [], length, count, Below, update,
  done, ok,
}
use hooch.SyncChannel
use hooch.SyncChannel.{SyncChannel}
use hooch.DashMap.{DashMap}
use hooch.Task.{Task}
use hooch.Manager.{
  Scheduler, ExecutorTask, task, waiting_bound, executor_ready, register_or_execute,
}
use hooch.Manager.Waits.{Waits}

-- `running` is the task that each executor polls. An executor that polls none waits in `recv`.
pub record System (M : Type 0) : Type 0 where
  pub sched : Scheduler M
  pub running : ℕ → Option Task

abbrev pub busy : Option Task → ℕ
busy none = 0
busy (some t) = 1

module _ (D : DashMap ℕ) (n : ℕ) where
  open D use {Map, get}

  -- Executors 0 to n - 1 are there. The sender that is registered for an executor has its number
  -- for an address, as each executor has a channel of its own.
  pub data Step (s : System Map) : System Map → Type 0 where
    -- A task is spawned or woken, by whatever thread.
    submit :
        (t : Task) {s' : Scheduler Map}
        → register_or_execute D s.sched t ≡ done s'
        → Step s (record s { sched = s' })
    -- `recv` hands an executor its next task.
    receive :
        (e : ℕ) (t : Task) {c : SyncChannel ExecutorTask}
        → e < n
        → s.running e ≡ none
        → SyncChannel.recv (s.sched.channels e) ≡ done (ok (task t), c)
        → Step s (record {
          sched = record (s.sched) { channels = update s.sched.channels e c };
          running = update s.running e (some t);
        })
    -- The executor has polled its task, and asks for the next one.
    ready :
        (e : ℕ) (t : Task) {s' : Scheduler Map}
        → e < n
        → s.running e ≡ some t
        → executor_ready D s.sched e ≡ done s'
        → Step s (record { sched = s'; running = update s.running e none })
    -- `JoinHandle::abort` sets the flag at address `a`.
    abort :
        (a : ℕ)
        → Step s (record s { sched = record (s.sched) { aborts = update s.sched.aborts a true } })

  pub data Reach (s : System Map) : System Map → Type 0 where
    here : Reach s s
    later : {t u : System Map} → Reach s t → Step t u → Reach s u

  -- In how many places executor `e` stands: among those that wait, with a task in its channel, or
  -- with a task that it polls.
  abbrev pub places : System Map → List ℕ → ℕ → ℕ
  places s is e = count e is + length (s.sched.channels e).queue + busy (s.running e)

  -- `ws` are the tasks that wait, and `is` the executors.
  pub record Inv (s : System Map) (ws : List Task) (is : List ℕ) : Type 0 where
    pub few : n ≤ waiting_bound
    pub waits : Waits s.sched.manager ws is
    pub registered : (e : ℕ) → e < n → get e s.sched.manager.executors ≡ some e
    pub receivers : (e : ℕ) → e < n → (s.sched.channels e).receiver ≡ true
    pub bounds : (e : ℕ) → e < n → 0 < (s.sched.channels e).bound
    pub below : Below n is
    pub one_place : (e : ℕ) → e < n → places s is e ≡ 1
    pub conserving : (ws ≡ []) ⊎ (is ≡ [])
