-- ===== src/Channel.antt =====
-- src/sync/mpsc/bounded_channel.rs, `BoundedSender` and `BoundedReceiver`.
pub mod Alone
pub mod Bounds
pub mod Closed
pub mod Counts
pub mod Invariant
pub mod Order
pub mod Receiving
pub mod Safety
pub mod Tags
pub mod Threads
pub mod Wakeups
use hooch.Base.{
  ℕ, ◌+◌, ◌-◌, ◌%◌, Bool, true, false, ◌==◌, if◌then◌else◌, usize_size, Exec, done, ◌>>=◌, Result,
  ok, err, unwrap, List, [],
}
use hooch.SyncChannel
use hooch.SyncChannel.{SyncChannel, SendError, RecvError, recv_error, TryRecvError}
use hooch.Mio.{MioWaker}
use hooch.Reactor
use hooch.Reactor.{Reactor, Waker, Poll, pending, ready}

-- What the two ends of a channel share: the inner channel, and the counters behind their `Arc`s.
pub record Channel (T : Type 0) : Type 0 where
  pub inner : SyncChannel T
  pub queue_cnt : ℕ
  pub reactor_tag : ℕ
  pub clone_count : ℕ

-- A channel with the reactor that it registers with, and the waker of that reactor.
pub record Linked (T M : Type 0) : Type 0 where
  pub channel : Channel T
  pub reactor : Reactor
  pub mio : M

-- The new channel, and the reactor that has given out its tag.
unfoldable pub bounded_channel : {T : Type 0} → ℕ → Reactor → Channel T × Reactor
bounded_channel bound reactor =
    let (tag, reactor') = Reactor.generate_reactor_tag reactor in
    (
      record {
        inner = SyncChannel.sync_channel bound;
        queue_cnt = 0;
        reactor_tag = tag;
        clone_count = 1;
      },
      reactor',
    )

module _ {T : Type 0} (mio : MioWaker) where
  open mio use {State, wake}

  -- `self.queue_cnt.fetch_add(1)`, the registration and the wake-up that follow a message sent.
  unfoldable pub announce : Linked T State → Exec (Linked T State)
  announce s = do
    reactor ← Reactor.register_reactor_tag s.reactor s.channel.reactor_tag
    let (woke, m) = wake s.mio
    _ ← unwrap woke
    done (record {
      channel = record (s.channel) { queue_cnt = (s.channel.queue_cnt + 1) % usize_size };
      reactor = reactor;
      mio = m;
    })

  unfoldable pub send : Linked T State → T → Exec (Result (Unit {0}) (SendError T) × Linked T State)
  send s val = do
    (res, inner) ← SyncChannel.send s.channel.inner val
    let s' = record s { channel = record (s.channel) { inner = inner } }
    elim res [ err e ↦ done (err e, s') | ok _ ↦ (do s'' ← announce s'; done (ok tt, s'')) ]

module _ {T M : Type 0} where
  -- `Clone for BoundedSender`.
  unfoldable pub clone : Linked T M → Linked T M
  clone s = record s {
    channel = record (s.channel) {
      clone_count = (s.channel.clone_count + 1) % usize_size;
      inner = record (s.channel.inner) { senders = s.channel.inner.senders + 1 };
    };
  }

  -- `Drop for BoundedSender`, and the drop of its fields. `fetch_sub` gives the count before.
  unfoldable pub drop : Linked T M → Linked T M
  drop s =
      let count = s.channel.clone_count in
      record s {
        channel = record (s.channel) {
          clone_count = (count + (usize_size - 1)) % usize_size;
          inner = record (s.channel.inner) { senders = s.channel.inner.senders - 1 };
        };
        reactor =
            if count == 0 then Reactor.remove_tag s.reactor s.channel.reactor_tag else s.reactor;
      }

  -- `poll_recv` after its look at the counter.
  unfoldable pub poll_empty : Linked T M → Waker → Linked T M
  poll_empty s waker = record s {
    reactor = Reactor.store_waker_channel s.reactor s.channel.reactor_tag waker;
  }

  unfoldable pub poll_some : Linked T M → Result T RecvError × Linked T M
  poll_some s =
      let (v, inner) = SyncChannel.try_recv s.channel.inner in
      elim v [
        | ok val ↦ (
          ok val,
          record s {
            channel = record (s.channel) {
              inner = inner;
              queue_cnt = (s.channel.queue_cnt + (usize_size - 1)) % usize_size;
            };
          },
        )
        | err e ↦ (err recv_error, record s { channel = record (s.channel) { inner = inner } })
      ]

  unfoldable pub poll_recv : Linked T M → Waker → Poll (Result T RecvError) × Linked T M
  poll_recv s waker =
      if s.channel.queue_cnt == 0
      then (pending, poll_empty s waker)
      else (let (v, s') = poll_some s in (ready v, s'))

  -- `BoundedReceiver::try_recv`.
  unfoldable pub try_recv : Linked T M → Result T TryRecvError × Linked T M
  try_recv s =
      let (v, inner) = SyncChannel.try_recv s.channel.inner in
      (v, record s { channel = record (s.channel) { inner = inner } })
