-- ===== src/Manager/Waits.antt =====
-- The tasks and the executors that wait in a `TaskManager` (src/task/manager.rs), and the parts that
-- its methods share.
use hooch.Base.{ℕ, ◌≡◌, ◌<◌, ◌∙◌, true, some, List, [], ◌∷◌, ◌++◌, length, arith, update, done}
use hooch.Ring.{capacity}
use hooch.Ring.Fifo.{Holds, pushed, capacity-pushed, push-eq-pushed, pushed-Holds}
use hooch.SyncChannel.{SyncChannel, send-room}
use hooch.DashMap.{DashMap}
use hooch.Task.{Task}
use hooch.Manager.{
  TaskManager, Scheduler, ExecutorTask, task, waiting_bound, wait_for_task, send_task,
  wait_for_executor, with_tasks, with_executors,
}

-- The tasks `ws` and the executors `is` wait, the longest-waiting first.
pub record Waits {M : Type 0} (m : TaskManager M) (ws : List Task) (is : List ℕ) : Type 0 where
  pub tasks : Holds m.waiting_tasks ws
  pub tasks_bound : capacity m.waiting_tasks ≡ waiting_bound
  pub idle : Holds m.waiting_executors is
  pub idle_bound : capacity m.waiting_executors ≡ waiting_bound

-- The channel with one more task in it.
abbrev pub with_task : SyncChannel ExecutorTask → Task → SyncChannel ExecutorTask
with_task c t = record c { queue = c.queue ++ task t ∷ [] }

module _ (D : DashMap ℕ) where
  open D use {Map, get}

  -- Executor `e` can be sent a task at once, through the channel at `a`.
  pub record IsOpen (s : Scheduler Map) (e a : ℕ) : Type 0 where
    pub registered : get e s.manager.executors ≡ some a
    pub receiver : (s.channels a).receiver ≡ true
    pub room : length (s.channels a).queue < (s.channels a).bound

  -- What no method changes.
  abbrev pub Keeps : Scheduler Map → Scheduler Map → Type 0
  Keeps s s' = (s'.aborts ≡ s.aborts) × (s'.manager.executors ≡ s.manager.executors)

  pub send_task_lem :
      (s : Scheduler Map) (e a : ℕ) (t : Task)
      → IsOpen s e a
      → send_task D s e t
        ≡ done (record s { channels = update s.channels a (with_task (s.channels a) t) })
  unfolding send_task
  send_task_lem s e a t o =
      rw (o.registered) (rw (send-room (s.channels a) (task t) o.receiver o.room))

  pub wait_for_task_lem :
      (s : Scheduler Map) (ws : List Task) (is : List ℕ) (e : ℕ)
      → Waits s.manager ws is
      → length is < waiting_bound
      → (wait_for_task D s e ≡ done (with_executors s (pushed s.manager.waiting_executors e)))
        × Waits (with_executors s (pushed s.manager.waiting_executors e)).manager ws (is ++ e ∷ [])
  unfolding wait_for_task
  wait_for_task_lem s ws is e w room = (
    rw (push-eq-pushed _ is e w.idle space),
    record {
      tasks = w.tasks;
      tasks_bound = w.tasks_bound;
      idle = pushed-Holds _ is e w.idle space;
      idle_bound = capacity-pushed _ e ∙ w.idle_bound;
    },
  )
    where
      space : length is < capacity s.manager.waiting_executors
      space = omega (arith, w.idle_bound)

  pub wait_for_executor_lem :
      (s : Scheduler Map) (ws : List Task) (is : List ℕ) (t : Task)
      → Waits s.manager ws is
      → length ws < waiting_bound
      → (wait_for_executor D s t ≡ done (with_tasks s (pushed s.manager.waiting_tasks t)))
        × Waits (with_tasks s (pushed s.manager.waiting_tasks t)).manager (ws ++ t ∷ []) is
  unfolding wait_for_executor
  wait_for_executor_lem s ws is t w room = (
    rw (push-eq-pushed _ ws t w.tasks space),
    record {
      tasks = pushed-Holds _ ws t w.tasks space;
      tasks_bound = capacity-pushed _ t ∙ w.tasks_bound;
      idle = w.idle;
      idle_bound = w.idle_bound;
    },
  )
    where
      space : length ws < capacity s.manager.waiting_tasks
      space = omega (arith, w.tasks_bound)
