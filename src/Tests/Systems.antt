-- ===== src/Tests/Systems.antt =====
-- Schedulers of one worker, for the theorems about src/task.
use hooch.Base.{
  ℕ, ◌≡◌, refl, arith, true, some, none, Option, List, [], ◌∷◌, length, length-replicate, count,
  count-nil, count-cons, Below, subst, inl, ◌+◌, ◌∙◌, ◌==◌,
}
use hooch.Ring
use hooch.Ring.{Ring, capacity}
use hooch.Ring.Fifo.{Holds, pushed, pushed-Holds, new-Holds, capacity-pushed}
use hooch.SyncChannel
use hooch.SyncChannel.{SyncChannel}
use hooch.DashMap.{DashMap, function_map}
use hooch.Task.{Task}
use hooch.Manager
use hooch.Manager.{
  TaskManager, Scheduler, ExecutorTask, task, waiting_bound, executor_ready, register_or_execute,
  register_executor,
}
use hooch.Manager.System.{System, busy, Inv}
use hooch.Runtime.Workers.{new-Waits}

abbrev pub map : DashMap ℕ
map = function_map ℕ

-- Nothing is registered yet, and the tasks with flag 13 are aborted.
abbrev pub cold : Scheduler map.Map
cold = record {
  manager = Manager.new map 0;
  channels = λ e. SyncChannel.sync_channel 0;
  aborts = λ a. a == 13;
}

abbrev pub first : Task
first = record { future = 70; task_tag = 1; abort = 10 }

-- One worker: the ring of the executors that wait, what is in its channel, and what it polls.
abbrev pub one_worker : Ring ℕ → List ExecutorTask → Option Task → System map.Map
one_worker ring queue polled = record {
  sched = record {
    manager = record (Manager.new map 0) { waiting_executors = ring; executors = λ e. some e };
    channels = λ a. record { bound = 10000; queue = queue; receiver = true; senders = 1 };
    aborts = λ a. a == 13;
  };
  running = λ e. polled;
}

one_worker-Inv :
    (ring : Ring ℕ) (queue : List ExecutorTask) (polled : Option Task) (is : List ℕ)
    → Holds ring is
    → capacity ring ≡ waiting_bound
    → Below 1 is
    → count 0 is + length queue + busy polled ≡ 1
    → Inv map 1 (one_worker ring queue polled) [] is
one_worker-Inv ring queue polled is holds size below place = record {
  few = omega arith;
  waits = record {
    tasks = (new-Waits map 0).tasks;
    tasks_bound = (new-Waits map 0).tasks_bound;
    idle = holds;
    idle_bound = size;
  };
  registered = λ e lt. refl;
  receivers = λ e lt. refl;
  bounds = λ e lt. omega arith;
  below = below;
  one_place = λ e lt.
      let at : 0 ≡ e = omega (arith, lt) in
      subst (λ (a : ℕ). count a is + length queue + busy polled ≡ 1) at place;
  conserving = inl refl;
}

ring_of_none : Holds (Ring.new {A = ℕ} waiting_bound) []
ring_of_none = new-Holds waiting_bound (omega arith)

pub new_size : (A : Type 0) → capacity (Ring.new {A = A} waiting_bound) ≡ waiting_bound
unfolding Ring.new
new_size A = length-replicate {A = Option A} waiting_bound none

-- The worker waits, or has a task in its channel, or polls it.
abbrev pub idle : System map.Map
idle = one_worker (pushed (Ring.new waiting_bound) 0) [] none

pub idle-Inv : Inv map 1 idle [] (0 ∷ [])
idle-Inv =
    one_worker-Inv (pushed (Ring.new waiting_bound) 0) [] none (0 ∷ [])
      (pushed-Holds (Ring.new waiting_bound) [] 0 ring_of_none (omega (arith, new_size ℕ)))
      (capacity-pushed (Ring.new waiting_bound) 0 ∙ new_size ℕ) (omega arith, tt)
      (ground (arith, count-cons 0 0 [], count-nil 0))

abbrev pub woken : System map.Map
woken = one_worker (Ring.new waiting_bound) (task first ∷ []) none

pub woken-Inv : Inv map 1 woken [] []
woken-Inv =
    one_worker-Inv (Ring.new waiting_bound) (task first ∷ []) none [] ring_of_none (new_size ℕ) tt
      (ground (arith, count-nil 0))

abbrev pub polling : System map.Map
polling = one_worker (Ring.new waiting_bound) [] (some first)

pub polling-Inv : Inv map 1 polling [] []
polling-Inv =
    one_worker-Inv (Ring.new waiting_bound) [] (some first) [] ring_of_none (new_size ℕ) tt
      (ground (arith, count-nil 0))
