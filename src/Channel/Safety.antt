-- ===== src/Channel/Safety.antt =====
-- What holds however the calls on a channel (src/sync/mpsc/bounded_channel.rs) interleave.
use hooch.Base.{
  ℕ, ◌+◌, ◌≡◌, ◌<◌, ◌≤◌, refl, ◌≢◌, ap, subst, [], ◌++◌, length, arith, update, usize_size,
  total_zero, Result, ok, err, Whenever-done,
}
use hooch.SyncChannel
use hooch.SyncChannel.{SyncChannel, SendError, RecvError, send-room, send-full, try_recv-some}
use hooch.Mio.{MioWaker}
use hooch.Reactor.{Reactor, Poll, pending, ready}
use hooch.Channel.{bounded_channel}
use hooch.Channel.Bounds.{Reach-bound}
use hooch.Channel.Threads.{
  sending, finished, RecvPc, looking, answered, send_access, Threads, Step, sender_moves,
  sender_begins, receiver_moves, receiver_begins, others_move, Reach, here, later,
}
use hooch.Channel.Invariant.{
  uncounted, counted_still, Sound, Inv, moved, total_moved, counted_still-le, sender-Inv,
}
use hooch.Channel.Receiving.{receiver-Inv}

module _ (T : Type 0) (mio : MioWaker) (n : ℕ) where
  open mio use {State}

  -- A thread that begins a call.
  begins-Inv :
      (q : Threads T State) (i : ℕ) (v : T) (res : Result (Unit {0}) (SendError T))
      → Inv n q
      → i < n
      → q.senders i ≡ finished res
      → Inv n (record q { senders = update q.senders i (sending v) })
  begins-Inv q i v res inv lt at = record {
    order = inv.order;
    counted = omega (arith, inv.counted, total_moved T mio n q i (sending v) lt, ap uncounted at);
    fits = inv.fits;
    small = inv.small;
    alive = inv.alive;
    sound = inv.sound;
  }

  polls-Inv :
      (q : Threads T State) (answer : Poll (Result T RecvError))
      → Inv n q
      → q.receiver ≡ answered answer
      → Inv n (record q { receiver = looking })
  polls-Inv q answer inv at = record {
    order = inv.order;
    counted = omega (arith, inv.counted, ap counted_still at);
    fits = inv.fits;
    small = inv.small;
    alive = inv.alive;
    sound = tt;
  }

  Step-Inv : (p q : Threads T State) → Step T mio n p q → Inv n p → Inv n q
  Step-Inv p _ (sender_moves i {pc} {s} lt e) inv =
      Whenever-done (λ x. Inv n (moved T mio n p i x)) (send_access mio (p.senders i) p.linked) e
        (sender-Inv T mio n p i (p.senders i) inv lt refl)
  Step-Inv p _ (sender_begins i v {res} lt at) inv = begins-Inv p i v res inv lt at
  Step-Inv p _ (receiver_moves w) inv = receiver-Inv T mio n p w p.receiver inv refl
  Step-Inv p _ (receiver_begins {answer} at) inv = polls-Inv p answer inv at
  Step-Inv p _ (others_move r m) inv = record {
    order = inv.order;
    counted = inv.counted;
    fits = inv.fits;
    small = inv.small;
    alive = inv.alive;
    sound = inv.sound;
  }

  Reach-Inv : (p q : Threads T State) → Reach T mio n p q → Inv n p → Inv n q
  Reach-Inv p q here inv = inv
  Reach-Inv p q (later {p = r} before step) inv = Step-Inv r q step (Reach-Inv p r before inv)

  -- A new channel, before any call on it.
  abbrev pub new_threads : ℕ → Reactor → State → Threads T State
  new_threads bound reactor m = record {
    linked =
        let (channel, reactor') = bounded_channel bound reactor in
        record { channel = channel; reactor = reactor'; mio = m };
    senders = λ i. finished (ok tt);
    receiver = answered pending;
    sent = [];
    received = [];
  }

  new-Inv :
      (bound : ℕ) (reactor : Reactor) (m : State)
      → bound + 1 < usize_size
      → Inv n (new_threads bound reactor m)
  unfolding bounded_channel SyncChannel.sync_channel
  new-Inv bound reactor m small = record {
    order = refl;
    counted = omega (arith, total_zero n);
    fits = omega arith;
    small = small;
    alive = refl;
    sound = tt;
  }

  -- On a new channel for a bound below 2 ^ 64 - 1, let any n senders make any calls of `send`, and
  -- the receiver any calls of `poll_recv`, with their accesses interleaved in any order, and with
  -- the reactor changed by others in any way in between. At every moment the messages received,
  -- followed by those in the channel, are the messages sent, in the order in which they went in; at
  -- most as many of them as the bound that was given are in the channel; the counter is at most one
  -- above their number; and no poll has been answered with an error.
  pub interleaved_in_order :
      (bound : ℕ) (reactor : Reactor) (m : State) (q : Threads T State)
      → bound + 1 < usize_size
      → Reach T mio n (new_threads bound reactor m) q
      → (q.received ++ q.linked.channel.inner.queue ≡ q.sent)
        × (length q.linked.channel.inner.queue ≤ bound)
        × (q.linked.channel.queue_cnt ≤ length q.linked.channel.inner.queue + 1)
        × ((e : RecvError) → q.receiver ≢ answered (ready (err e)))
  unfolding bounded_channel SyncChannel.sync_channel
  interleaved_in_order bound reactor m q small path =
      let inv = Reach-Inv _ q path (new-Inv bound reactor m small) in
      let same : q.linked.channel.inner.bound ≡ bound =
        Reach-bound T mio n (new_threads bound reactor m) q path in
      (
        inv.order,
        omega (arith, inv.fits, same),
        omega (arith, inv.counted, counted_still-le T mio n q.receiver),
        λ e at. subst (λ (r : RecvPc T). Sound r q.linked.channel.queue_cnt) at inv.sound,
      )
