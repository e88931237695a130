-- ===== src/Tests/Turns.antt =====
-- The theorem about the order in which src/task/manager.rs hands out tasks, at two executors.
use hooch.Base.{
  done, Whenever-done, ap, Bool, ℕ, ◌≡◌, ◌∙◌, refl, arith, true, false, some, none, [], ◌∷◌, ◌==◌,
  inr, count-nil, Returns-value, update,
}
use hooch.Ring
use hooch.Ring.Fifo.{pushed, pushed-Holds, new-Holds, capacity-pushed}
use hooch.Task.{Task}
use hooch.Task
use hooch.Manager
use hooch.Manager.{Scheduler, waiting_bound, executor_ready}
use hooch.Manager.System.{System, Inv}
use hooch.Manager.Safety.{Preserved, ready_ends}
use hooch.Manager.Flags.{ready-SameFlags}
use hooch.Manager.Fairness.{start, asks, Served, served_in_turn}
use hooch.Runtime.Workers.{new-Waits}
use hooch.Tests.Systems.{map, first, new_size}

abbrev second : Task
second = record { future = 71; task_tag = 2; abort = 11 }

-- Two executors poll a task each, and two other tasks wait.
abbrev both_poll : System map.Map
both_poll = record {
  sched = record {
    manager = record (Manager.new map 0) {
      waiting_tasks = pushed (pushed (Ring.new waiting_bound) first) second;
      executors = λ e. some e;
    };
    channels = λ a. record { bound = 10000; queue = []; receiver = true; senders = 1 };
    aborts = λ a. a == 13;
  };
  running = λ e. some first;
}

both_poll-Inv : Inv map 2 both_poll (first ∷ second ∷ []) []
both_poll-Inv = record {
  few = omega arith;
  waits = record {
    tasks =
        pushed-Holds (pushed (Ring.new waiting_bound) first) (first ∷ []) second
          (pushed-Holds (Ring.new waiting_bound) [] first (new-Holds waiting_bound (omega arith))
            (omega (arith, new_size Task)))
          (omega (arith, new_size Task, capacity-pushed (Ring.new waiting_bound) first));
    tasks_bound =
        capacity-pushed (pushed (Ring.new waiting_bound) first) second
        ∙ capacity-pushed (Ring.new waiting_bound) first
        ∙ new_size Task;
    idle = (new-Waits map 0).idle;
    idle_bound = (new-Waits map 0).idle_bound;
  };
  registered = λ e lt. refl;
  receivers = λ e lt. refl;
  bounds = λ e lt. omega arith;
  below = tt;
  one_place = λ e lt. omega (arith, count-nil e);
  conserving = inr refl;
}

-- Executor 0 asks for work, and then executor 1.
first_asked :
    (s : Scheduler map.Map) × (executor_ready map both_poll.sched 0 ≡ done s)
    × Preserved map 2 (record { sched = s; running = update both_poll.running 0 none })
first_asked =
    Returns-value _ _
      (ready_ends map 2 both_poll (first ∷ second ∷ []) [] 0 first both_poll-Inv (omega arith) refl)

abbrev after_first : System map.Map
after_first = record { sched = first_asked.0; running = update both_poll.running 0 none }

second_asked :
    (s : Scheduler map.Map) × (executor_ready map after_first.sched 1 ≡ done s)
    × Preserved map 2 (record { sched = s; running = update after_first.running 1 none })
second_asked = Returns-value _ _ (
    ready_ends map 2 after_first first_asked.2.0 first_asked.2.1 1 first first_asked.2.2
      (omega arith) refl)

abbrev after_both : System map.Map
after_both = record { sched = second_asked.0; running = update after_first.running 1 none }

-- Nobody aborts a task meanwhile.
same_flags : after_both.sched.aborts ≡ both_poll.sched.aborts
same_flags =
    Whenever-done _ (executor_ready map after_first.sched 1) second_asked.1
      (ready-SameFlags map after_first.sched 1)
    ∙ Whenever-done _ (executor_ready map both_poll.sched 0) first_asked.1
        (ready-SameFlags map both_poll.sched 0)

still_live : Task.has_aborted after_both.sched.aborts second ≡ false
unfolding Task.has_aborted
still_live = ap (λ (flags : ℕ → Bool). flags 11) same_flags

served_in_turn_example : Served map 2 both_poll after_both second
served_in_turn_example =
    served_in_turn map 2 both_poll after_both 2 (first ∷ []) second [] [] both_poll-Inv
      (asks 1 first (asks 0 first start (omega arith) refl first_asked.1) (omega arith) refl
        second_asked.1)
      still_live (omega arith)
