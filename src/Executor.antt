-- ===== src/Executor.antt =====
-- src/executor.rs, `Executor`, and the wakers of src/task/task.rs.
pub mod Panics
pub mod Loop
use hooch.Base.{
  ℕ, zero, suc, Bool, true, false, Option, none, some, List, [], ◌∷◌, if◌then◌else◌, update, Exec,
  done, panicked, blocked, undefined, ◌>>=◌, unwrap, catch_unwind, Result, ok, err,
}
use hooch.SyncChannel
use hooch.SyncChannel.{SyncChannel, RecvError, recv_error}
use hooch.DashMap.{DashMap}
use hooch.Task.{Task}
use hooch.Manager.{Scheduler, ExecutorTask, task, finished, executor_ready}

-- How a poll of a future ends, with the future that it leaves.
pub data Polled (Fut : Type 0) : Type 0 where
  pends : Fut → Polled Fut
  completes : Polled Fut
  unwinds : Fut → Polled Fut

-- The cell `future` of a task: the mutex is poisoned when a thread panics while it holds it.
pub record Cell (Fut : Type 0) : Type 0 where
  pub future : Option Fut
  pub poisoned : Bool

-- The executor's thread: the cells of the tasks, by address, and the channel behind `panic_tx`.
pub record Running (M Fut : Type 0) : Type 0 where
  pub sched : Scheduler M
  pub cells : ℕ → Cell Fut
  pub panics : SyncChannel (Unit {0})

-- How `run` ends: it returns, or it panics. Of what it leaves then, the panic channel is all that its
-- thread still uses.
pub data Ended (M Fut : Type 0) : Type 0 where
  returned : Running M Fut → Ended M Fut
  unwound : SyncChannel (Unit {0}) → Ended M Fut

module _ {Fut : Type 0} (poll : Fut → Polled Fut) where
  -- `forward_task` on the cell of its task and the panic channel.
  unfoldable pub forward_task :
      Cell Fut → SyncChannel (Unit {0}) → Exec (Cell Fut × SyncChannel (Unit {0}))
  forward_task cell panics = if cell.poisoned then panicked else elim cell.future [
    | none ↦ done (cell, panics)
    | some fut ↦ elim (poll fut) [
      | pends fut' ↦ done (record { future = some fut'; poisoned = false }, panics)
      | completes ↦ done (record { future = none; poisoned = false }, panics)
      | unwinds fut' ↦ (do
        (res, panics') ← SyncChannel.send panics tt
        _ ← unwrap res
        done (record { future = some fut'; poisoned = true }, panics'))
    ]
  ]

module _ {Fut : Type 0} (D : DashMap ℕ) (poll : Fut → Polled Fut) where
  open D use {Map}

  -- The part of a round of `run` that follows the `recv` of a task.
  unfoldable pub run_task : ℕ → Running Map Fut → Task → Exec (Ended Map Fut)
  run_task id s t = do
    forwarded ← catch_unwind (forward_task poll (s.cells t.future) s.panics)
    elim forwarded [
      | none ↦ done (unwound s.panics)
      | some (cell, panics) ↦ (do
        ready ← catch_unwind (executor_ready D s.sched id)
        done (elim ready [
          | none ↦ unwound panics
          | some sched ↦
              returned
                (record { sched = sched; cells = update s.cells t.future cell; panics = panics })
        ]))
    ]

  -- `run` of executor `id`, whose receiver is the channel at the address `id`, for a number of
  -- rounds. `blocked` stands for a `recv` that waits, or more rounds.
  unfoldable pub run : ℕ → ℕ → Running Map Fut → Exec (Ended Map Fut)
  run zero id s = blocked
  run (suc rounds) id s = do
    (got, channel) ← SyncChannel.recv (s.sched.channels id)
    let s' = record s { sched = record (s.sched) { channels = update s.sched.channels id channel } }
    elim got [
      | err e ↦ done (returned s')
      | ok finished ↦ done (returned s')
      | ok (task t) ↦ (do
        ended ← run_task id s' t
        elim ended [ unwound panics ↦ done (unwound panics) | returned s'' ↦ run rounds id s'' ])
    ]
