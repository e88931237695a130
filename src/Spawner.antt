-- ===== src/Spawner.antt =====
-- src/spawner.rs, `Spawner` and `JoinHandle`.
pub mod Joins
pub mod Woken
pub mod Spawned
pub mod Typed
pub mod Aborts
use hooch.Base.{
  ℕ, ◌+◌, ◌%◌, Bool, true, false, Option, none, some, if◌then◌else◌, update, usize_size, Exec, done,
  panicked, ◌>>=◌, unwrap_some, Result, ok, err,
}
use hooch.DashMap.{DashMap}
use hooch.SyncChannel.{RecvError}
use hooch.Mio.{MioWaker}
use hooch.Reactor.{Reactor, Waker, Poll, pending, ready}
use hooch.Task.{Task, generate_tag}
use hooch.Manager.{Scheduler, register_or_execute}
use hooch.Channel
use hooch.Channel.{Channel, Linked, bounded_channel, poll_recv}

-- The future in `recv_fut`, an `async` block that awaits `recv`. To poll it after its end is a panic.
pub data RecvFut : Type 0 where
  running : RecvFut
  completed : RecvFut

-- The error "Error occurred while awaiting task".
pub data JoinHandleError : Type 0 where
  join_error : JoinHandleError

-- A `Box<dyn Any + Send>`, as a handle for a `T` sees it: it holds a `T`, or something of another type.
pub data BoxAny (T : Type 0) : Type 0 where
  of_type : T → BoxAny T
  of_other_type : BoxAny T

-- `downcast::<T>`, with nothing in place of the box that it gives back.
unfoldable pub downcast : {T : Type 0} → BoxAny T → Option T
downcast (of_type v) = some v
downcast of_other_type = none

-- The receiver is the channel's, which stands beside the handle. `abort` is the address of the flag.
pub record JoinHandle : Type 0 where
  pub has_awaited : Bool
  pub recv_fut : Option RecvFut
  pub abort : ℕ

module _ {T M : Type 0} where
  -- What follows the poll of `recv_fut`.
  unfoldable pub answered :
      JoinHandle
      → Linked (BoxAny T) M
      → Poll (Result (BoxAny T) RecvError)
      → Exec (Poll (Result T JoinHandleError) × JoinHandle × Linked (BoxAny T) M)
  answered jh s pending =
      done (pending, record jh { has_awaited = true; recv_fut = some running }, s)
  answered jh s (ready (ok ok_val)) = do
    ret_val ← unwrap_some (downcast ok_val)
    done (ready (ok ret_val), record jh { has_awaited = true; recv_fut = some completed }, s)
  answered jh s (ready (err e)) =
      done (ready (err join_error), record jh { has_awaited = true; recv_fut = some completed }, s)

  unfoldable pub poll :
      JoinHandle
      → Linked (BoxAny T) M
      → Waker
      → Exec (Poll (Result T JoinHandleError) × JoinHandle × Linked (BoxAny T) M)
  poll jh s waker =
      let (answer, s') = poll_recv s waker in
      elim jh.recv_fut [
        | some completed ↦ panicked
        | some running ↦ answered jh s' answer
        | none ↦ answered jh s' answer
      ]

-- `JoinHandle::abort`.
unfoldable pub abort : {M : Type 0} → JoinHandle → Scheduler M → Scheduler M
abort jh s = record s { aborts = update s.aborts jh.abort true }

-- What `spawn` reaches: the scheduler, the reactor, the counter of the task tags, and the next
-- address for a flag.
pub record Spawning (M : Type 0) : Type 0 where
  pub sched : Scheduler M
  pub reactor : Reactor
  pub next_task_tag : ℕ
  pub next_abort : ℕ

module _ (D : DashMap ℕ) {T : Type 0} where
  open D use {Map}

  -- `Spawner::spawn`, where the wrapped future is put at the address `future`.
  unfoldable pub spawn :
      ℕ → Spawning Map → Exec ((JoinHandle × Task × Channel (BoxAny T)) × Spawning Map)
  spawn future sp =
      let (channel, reactor) = bounded_channel 1 sp.reactor in
      let (tag, next_task_tag) = generate_tag sp.next_task_tag in
      let t : Task = record { future = future; task_tag = tag; abort = sp.next_abort } in
      do
        sched ←
            register_or_execute D
              (record (sp.sched) { aborts = update sp.sched.aborts sp.next_abort false }) t
        done (
          (record { has_awaited = false; recv_fut = none; abort = sp.next_abort }, t, channel),
          record {
            sched = sched;
            reactor = reactor;
            next_task_tag = next_task_tag;
            next_abort = sp.next_abort + 1;
          },
        )

module _ {T : Type 0} (mio : MioWaker) where
  open mio use {State}

  -- The end of the wrapped future: it boxes the value of the future and sends it, whatever the send answers, and
  -- drops the sender.
  unfoldable pub finish : Linked (BoxAny T) State → T → Exec (Linked (BoxAny T) State)
  finish s res = do (_, s') ← Channel.send mio s (of_type res); done (Channel.drop s')
