-- ===== src/Tests/Wakers.antt =====
-- The theorem about the references to a task that src/task/task.rs and src/executor.rs hold, at a
-- task in the channel of an executor.
use hooch.Base.{ℕ, ◌+◌, refl, arith, List, [], ◌∷◌, ◌==◌, true, if◌then◌else◌, Returns, total_one}
use hooch.Manager.{task}
use hooch.Manager.Owners.{queued_at}
use hooch.Waker.{Arcs}
use hooch.Waker.Ops.{WakerOp, clones, drops, wakes, wakes_by_ref}
use hooch.Waker.Handing.{Balanced, use_less}
use hooch.Waker.Rounds.{round}
use hooch.Waker.Holding.{polled_wakers, round_balances}
use hooch.Mio
use hooch.Mio.{counting-NeverFails}
use hooch.Task.{has_aborted}
use hooch.Reactor.Drain.{wakers_of}
use hooch.Runtime.Delivery.{handle_event, poll_calls, tag_calls, wait_send_wake}
use hooch.Runtime.Delivered.{Delivers, message_delivered}
use hooch.Reactor.{poll}
use hooch.Reactor.Readiness
use hooch.Reactor.Readiness.{Op, polls, event}
use hooch.Runtime.Resumed.{Resumes, event-Resumes}
use hooch.Tests.Channels.{small_reactor, of_two, of_two-Tallies, room_for_tags}
use hooch.Tests.Systems.{map, first, woken, woken-Inv}

-- The task at 70 is in the channel, two wakers of it are elsewhere, and its join handle is kept.
abbrev wakers : ℕ → ℕ
wakers ptr = if ptr == 70 then 2 else 0

abbrev others : ℕ → ℕ
others ptr = if ptr == 70 then 1 else 0

abbrev counting : Arcs map.Map
counting = record {
  sched = woken.sched;
  strong = λ ptr. wakers ptr + (if ptr == 70 then 1 else 0) + others ptr;
  tasks = λ ptr. record { future = ptr; task_tag = 1; abort = 10 };
  manager_alive = true;
}

-- The poll clones its waker, wakes the task twice, and drops a waker.
abbrev ops : List WakerOp
ops = clones 70 ∷ wakes 70 ∷ wakes_by_ref 70 ∷ drops 70 ∷ []

counting-Balanced : Balanced map 1 woken.running others 5 4 wakers counting
counting-Balanced = record {
  ws = [];
  is = [];
  system = woken-Inv;
  alive = refl;
  placed = λ ptr. refl;
  counted = λ ptr. ground (arith, total_one (λ e. queued_at ptr (task first ∷ [])));
  countable = λ ptr. ground arith;
  spacious = omega arith;
}

round_balances_example :
    Returns
      (Balanced map 1 woken.running others 0 0 (polled_wakers ops 70 wakers))
      (round map 0 ops counting)
round_balances_example =
    round_balances map 1 woken.running others ops 0 0 wakers counting 0 first [] counting-Balanced
      (omega arith) refl refl (omega arith, (omega arith, (omega arith, (omega arith, tt))))
      (omega arith)

message_delivered_example :
    Returns
      (Delivers map Mio.counting 1 woken.running others
        (polled_wakers (poll_calls (of_two 1 []) 70) 70 wakers)
        first
        80)
      (wait_send_wake map Mio.counting 0 70 80 (of_two 1 []) counting)
unfolding has_aborted wakers_of tag_calls
message_delivered_example =
    message_delivered map Mio.counting 1 woken.running others wakers (of_two 1 []) 80 counting 0
      first [] [] counting-NeverFails (of_two-Tallies [] (omega arith)) (omega arith)
      (omega (arith, room_for_tags))
      (use_less map 1 woken.running others 5 4 4 3 wakers counting (omega arith) (omega arith)
        counting-Balanced)
      tt tt (omega arith) refl refl refl refl

-- In between, another task polls, and its event comes.
abbrev elsewhere : List Op
elsewhere = polls 8 60 ∷ event 8 ∷ []

event-Resumes_example :
    Returns
      (Resumes map 1 woken.running others wakers 9 first)
      (handle_event map 9 (Readiness.run (poll small_reactor 9 70).1 elsewhere) counting)
unfolding has_aborted poll
event-Resumes_example =
    event-Resumes map 1 woken.running others wakers small_reactor 9 first elsewhere counting
      (ground arith) refl (ground arith, (ground arith, tt))
      (use_less map 1 woken.running others 5 1 4 1 wakers counting (omega arith) (omega arith)
        counting-Balanced)
      (omega arith) refl refl
