-- ===== src/Tests/Handles.antt =====
-- The theorems about src/spawner.rs and hooch-macro at small values.
use hooch.Base.{
  Whenever, ◌↔◌, ◌≤◌, update, ℕ, ◌≡◌, refl, arith, true, false, none, some, List, [], ◌∷◌, ok,
  Returns,
}
use hooch.SyncChannel
use hooch.Mio.{counting, counting-NeverFails}
use hooch.Reactor.{pending}
use hooch.Task.{has_aborted}
use hooch.Manager
use hooch.Manager.{Scheduler, register_or_execute}
use hooch.Channel
use hooch.Spawner
use hooch.Spawner.{BoxAny, JoinHandle, finish, abort}
use hooch.Ring.Fifo.{new-Holds}
use hooch.Runtime.Jobs
use hooch.Spawner.{Spawning}
use hooch.Spawner.Woken.{GetsValue, Wakes}
use hooch.Spawner.Spawned.{Spawned, spawn_then_join}
use hooch.Tests.Systems.{map, idle, idle-Inv, woken, first}
use hooch.Tests.Channels.{small_reactor}
use hooch.Spawner.Typed.{Event, is_polled, ends, run, PanicsIfDone, polls_downcast}
use hooch.Spawner.Aborts.{aborted_stays_out}
use hooch.Manager.Aborted.{at_executor}
use hooch.Manager.Submit.{submit_dead}
use hooch.Manager.System.{System, submit, receive, here, later}
use hooch.MainAttr.{main, workers, TokenTree, ident, equals, lit_int, ItemFn, hooch_main}
use hooch.MainAttr.Accepts.{AsksFor, hooch_main_accepts}
use hooch.Tests.Channels.{room_for_tags}

abbrev fresh_handle : JoinHandle
fresh_handle = record { has_awaited = false; recv_fut = none; abort = 10 }

-- One worker, which waits.
abbrev spawning : Spawning map.Map
spawning = record {
  sched = idle.sched;
  reactor = small_reactor;
  next_task_tag = 3;
  next_abort = 20;
}

spawn_then_join_example :
    Returns
      (λ ((jh, t, c), sp').
        let s : Channel.Linked (BoxAny ℕ) ℕ = record {
          channel = c;
          reactor = small_reactor;
          mio = 0;
        } in
        Spawned map 1 ℕ spawning 0 70 jh t c sp'
        × Returns (GetsValue counting jh 5 9 8) (finish counting s 5)
        × Returns
            (λ (answer, jh', s').
              (answer ≡ pending) × Returns (Wakes counting jh' 5 9 8 7) (finish counting s' 5))
            (Spawner.poll jh s 9))
      (Jobs.spawn map (some (record { handles = 1; runtime_handle = 2 })) 70 spawning)
spawn_then_join_example =
    spawn_then_join map 1 counting counting-NeverFails spawning
      (record { handles = 1; runtime_handle = 2 }) 70 0 idle.running [] [] small_reactor 0 5 [] 9 8
      7 idle-Inv (new-Holds 4 (omega arith)) (omega (arith, room_for_tags))

abbrev cold : Scheduler map.Map
cold = record {
  manager = Manager.new map 0;
  channels = λ a. SyncChannel.sync_channel 0;
  aborts = λ a. false;
}

-- The task is in the channel when its handle is aborted. It is woken, and the executor takes it.
abbrev aborted_run : System map.Map
aborted_run = record woken { sched = Spawner.abort fresh_handle woken.sched }

aborted_stays_out_example :
    at_executor 10
      (record {
        sched = record (aborted_run.sched) {
          channels = update woken.sched.channels 0 (record (woken.sched.channels 0) { queue = [] });
        };
        running = update woken.running 0 (some first);
      })
      0
    ≤ at_executor 10 woken 0
unfolding Spawner.abort SyncChannel.recv has_aborted
aborted_stays_out_example = aborted_stays_out map 1 woken _ fresh_handle 0 (
    later
      (later here
        (submit first (submit_dead map (Spawner.abort fresh_handle woken.sched) first refl)))
      (receive 0 first (omega arith) refl refl))

-- The handle is polled, its future ends with 5, and the handle is polled again.
abbrev life : List (Event ℕ)
life = is_polled 9 ∷ ends 5 ∷ is_polled 9 ∷ []

polls_downcast_example : Whenever (PanicsIfDone counting 8) (
    run counting fresh_handle
      (record {
        channel = (Channel.bounded_channel 1 small_reactor).0;
        reactor = small_reactor;
        mio = 0;
      })
      life)
polls_downcast_example = polls_downcast counting small_reactor small_reactor 0 fresh_handle life 8

abbrev four_workers : List TokenTree
four_workers = ident workers ∷ equals ∷ lit_int 4 ∷ []

abbrev async_main : ItemFn
async_main = record { name = main; is_async = true }

hooch_main_accepts_example :
    (hooch_main four_workers async_main ≡ ok (record { num_workers = 4 }))
    ↔ (AsksFor four_workers 4 × (async_main.name ≡ main) × (async_main.is_async ≡ true))
hooch_main_accepts_example = hooch_main_accepts four_workers async_main 4
