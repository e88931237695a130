-- ===== src/Tests/Crowds.antt =====
-- The theorem about interleaved calls of src/task/manager.rs at one thread and one executor.
use hooch.Manager.Owners.{one_at}
use hooch.Base.{true, ◌+◌, ℕ, false, some, none, ◌==◌, if◌then◌else◌, update}
use hooch.Ring
use hooch.Ring.{Ring, capacity}
use hooch.Ring.Fifo.{pushed, popped}
use hooch.SyncChannel
use hooch.SyncChannel.{SyncChannel}
use hooch.Task.{Task}
use hooch.Manager
use hooch.Manager.{Scheduler, waiting_bound, with_executors}
use hooch.Manager.Waits.{Waits, with_task}
use hooch.Manager.Halves.{SubmitPc}
use hooch.Manager.Hands.{refused}
use hooch.Manager.Crowd.{Crowd, receiving, aborts}
use hooch.Tests.Systems.{map, first}

abbrev one_waits : Ring ℕ
one_waits = pushed (Ring.new waiting_bound) 0

-- Executor 0 is registered, and waits.
abbrev start : Scheduler map.Map
start = record {
  manager = record (Manager.new map 0) {
    waiting_executors = one_waits;
    executors = λ e. if e == 0 then some 0 else none;
  };
  channels = λ a. SyncChannel.sync_channel 10000;
  aborts = λ a. false;
}

-- A thread has submitted a task, which is in the channel of the executor.
abbrev sent : Crowd map.Map
sent = record {
  sched = record (with_executors start (popped one_waits)) {
    channels = update start.channels 0 (with_task (start.channels 0) first);
  };
  submitters =
      update
        (update
          (update (update (λ i. SubmitPc.returned) 0 (SubmitPc.arriving first)) 0
            (SubmitPc.seeking first))
          0 (SubmitPc.sending 0 first))
        0 SubmitPc.returned;
  executors = λ e. receiving;
  submitted = λ ptr. 0 + one_at ptr first;
  polled = λ ptr. 0;
  dropped = λ ptr.
      0
      + refused start.aborts (SubmitPc.arriving first) ptr
      + refused start.aborts (SubmitPc.seeking first) ptr
      + refused start.aborts (SubmitPc.sending 0 first) ptr;
}

-- Then the task is aborted, and a submission of it drops it.
abbrev refused_again : Crowd map.Map
refused_again = record {
  sched = record (sent.sched) { aborts = update sent.sched.aborts first.abort true };
  submitters = update (update sent.submitters 0 (SubmitPc.arriving first)) 0 SubmitPc.returned;
  executors = sent.executors;
  submitted = λ ptr. sent.submitted ptr + one_at ptr first;
  polled = sent.polled;
  dropped = λ ptr.
      sent.dropped ptr
      + refused (update sent.sched.aborts first.abort true) (SubmitPc.arriving first) ptr;
}
