-- ===== src/Tests/Scheduler.antt =====
-- The theorems about src/task/manager.rs and `Executor::run` at the scheduler of one
-- worker.
use hooch.Base.{
  ℕ, zero, suc, ◌≡◌, refl, arith, true, false, some, none, [], ◌∷◌, ◌∙◌, update, ◌==◌, Returns,
}
use hooch.Ring
use hooch.Ring.{Ring, capacity}
use hooch.Ring.Fifo.{pushed, pushed-Holds, new-Holds, capacity-pushed}
use hooch.SyncChannel.{SyncChannel}
use hooch.Task.{Task, has_aborted}
use hooch.Manager
use hooch.Manager.{
  TaskManager, Scheduler, ExecutorTask, task, waiting_bound, executor_ready, register_or_execute,
  register_executor,
}
use hooch.Manager.Waits.{Waits}
use hooch.Manager.Ready.{skip_aborted, Readied, executor_ready_lem}
use hooch.Manager.System.{abort, Reach, later}
use hooch.Manager.Safety.{Preserved, Reach-Inv, Submitted, calls_end}
use hooch.Manager.Halves.{ReadyPc, SubmitPc, submit_alone, Pair}
use hooch.Manager.Halves
use hooch.Manager.Races.{lost_wakeup}
use hooch.Executor.{Polled, pends, completes, Cell, forward_task}
use hooch.Executor.Loop.{round-Reach}
use hooch.Runtime.Workers.{new-Waits}
use hooch.Tests.Systems.{map, cold, first, new_size, woken, woken-Inv, polling, polling-Inv}

cold-Waits : Waits cold.manager [] []
cold-Waits = new-Waits map 0

lost_wakeup_example :
    (q : Pair map) × Halves.Reach map 1
      (record { sched = cold; executor = ReadyPc.asking; submitter = SubmitPc.arriving first })
      q
    × (q.executor ≡ ReadyPc.returned)
    × (q.submitter ≡ SubmitPc.returned)
    × Waits q.sched.manager (first ∷ []) (1 ∷ [])
    × (q.sched.channels ≡ cold.channels)
unfolding has_aborted
lost_wakeup_example = lost_wakeup map cold 1 first cold-Waits refl

calls_end_example :
    Returns
      (λ s. Preserved map 1 (record { sched = s; running = update polling.running 0 none }))
      (executor_ready map polling.sched 0)
    × Submitted map 1 polling [] [] first
calls_end_example = calls_end map 1 polling [] [] 0 first first polling-Inv (omega arith) refl

-- A future is the number of its polls that are still to come.
abbrev countdown : ℕ → Polled ℕ
countdown zero = completes
countdown (suc n) = pends n

abbrev cells : ℕ → Cell ℕ
cells a = record { future = some 3; poisoned = false }

abbrev no_panics : SyncChannel (Unit {0})
no_panics = record { bound = 1; queue = []; receiver = true; senders = 3 }

-- The task is received and polled, the executor asks for work, and the task is aborted.
one_round :
    (s : Scheduler map.Map) × Reach map 1 woken
      (record { sched = s; running = update (update woken.running 0 (some first)) 0 none })
unfolding forward_task
one_round =
    let (s, runs, reach) =
      round-Reach map countdown 1 4 woken cells no_panics [] [] 0 first [] _ no_panics woken-Inv
        (omega arith) refl refl refl in
    (s, reach)

Reach-Inv_example : Preserved map 1 (record {
  sched = record (one_round.0) { aborts = update one_round.0.aborts 10 true };
  running = update (update woken.running 0 (some first)) 0 none;
})
Reach-Inv_example = Reach-Inv map 1 [] [] woken-Inv (later one_round.1 (abort 10))

abbrev dead : Task
dead = record { future = 71; task_tag = 2; abort = 13 }

-- An aborted task waits, then one that is not.
abbrev two_wait : Scheduler map.Map
two_wait = record {
  manager = record (Manager.new map 0) {
    waiting_tasks = pushed (pushed (Ring.new waiting_bound) dead) first;
    executors = λ e. some e;
  };
  channels = λ a. record { bound = 10; queue = []; receiver = true; senders = 1 };
  aborts = λ a. a == 13;
}

two_wait-Waits : Waits two_wait.manager (dead ∷ first ∷ []) []
two_wait-Waits = record {
  tasks =
      pushed-Holds (pushed (Ring.new waiting_bound) dead) (dead ∷ []) first
        (pushed-Holds (Ring.new waiting_bound) [] dead (new-Holds waiting_bound (omega arith))
          (omega (arith, new_size Task)))
        (omega (arith, new_size Task, capacity-pushed (Ring.new waiting_bound) dead));
  tasks_bound =
      capacity-pushed (pushed (Ring.new waiting_bound) dead) first
      ∙ capacity-pushed (Ring.new waiting_bound) dead
      ∙ new_size Task;
  idle = cold-Waits.idle;
  idle_bound = cold-Waits.idle_bound;
}

executor_ready_lem_example :
    Readied map two_wait [] 0 0
      (skip_aborted two_wait.aborts (dead ∷ first ∷ []))
      (executor_ready map two_wait 0)
executor_ready_lem_example =
    executor_ready_lem map two_wait (dead ∷ first ∷ []) [] 0 0 two_wait-Waits
      (record { registered = refl; receiver = refl; room = omega arith }) (omega arith)
