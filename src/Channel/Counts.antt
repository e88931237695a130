-- ===== src/Channel/Counts.antt =====
-- The counter of a channel (src/sync/mpsc/bounded_channel.rs) and the messages in it.
use hooch.Base.{
  ℕ, ◌+◌, ◌≡◌, ◌<◌, ◌≤◌, ◌-◌, ◌%◌, refl, ap, true, false, List, [], ◌∷◌, ◌++◌, length,
  length-append, arith, ◌==◌, usize_size, done, ok,
}
use hooch.SyncChannel
use hooch.SyncChannel.{SyncChannel, SendError, RecvError, send-room}
use hooch.Mio.{MioWaker, NeverFails}
use hooch.Ring.{capacity}
use hooch.Ring.Fifo.{Holds, pushed, push-eq-pushed, pushed-Holds}
use hooch.Reactor
use hooch.Reactor.{Reactor, Waker, Poll, pending, ready}
use hooch.Channel.{Linked, announce, send, poll_empty, poll_some, poll_recv}

-- The messages `q` are in transit, and counted. The tags `ts` are in the reactor's buffer.
pub record Tallies {T M : Type 0} (s : Linked T M) (q : List T) (ts : List ℕ) : Type 0 where
  pub queue : s.channel.inner.queue ≡ q
  pub counted : s.channel.queue_cnt ≡ length q
  pub fits : length q ≤ s.channel.inner.bound
  pub small : s.channel.inner.bound < usize_size
  pub receiver : s.channel.inner.receiver ≡ true
  pub tags : Holds s.reactor.reactor_tag_buffer ts

module _ {T : Type 0} (mio : MioWaker) (works : NeverFails mio) where
  open mio use {State, wake}

  -- What a send leaves behind.
  abbrev pub sent : Linked T State → T → Linked T State
  sent s v = record {
    channel = record (s.channel) {
      inner = record (s.channel.inner) { queue = s.channel.inner.queue ++ v ∷ [] };
      queue_cnt = s.channel.queue_cnt + 1;
    };
    reactor = record (s.reactor) {
      reactor_tag_buffer = pushed s.reactor.reactor_tag_buffer s.channel.reactor_tag;
    };
    mio = (wake s.mio).1;
  }

  pub send-eq-sent :
      (s : Linked T State) (v : T) (q : List T) (ts : List ℕ)
      → Tallies s q ts
      → length q < s.channel.inner.bound
      → length ts < capacity s.reactor.reactor_tag_buffer
      → send mio s v ≡ done (ok tt, sent s v)
  unfolding send announce Reactor.register_reactor_tag
  send-eq-sent s v q ts t room space = rw (send-room s.channel.inner v t.receiver queue_room) (
      rw (push-eq-pushed s.reactor.reactor_tag_buffer ts s.channel.reactor_tag t.tags space)
        (rw (works.wakes s.mio) (rw no_wrap)))
    where
      queue_room : length s.channel.inner.queue < s.channel.inner.bound
      queue_room = rw (t.queue) room

      no_wrap : (s.channel.queue_cnt + 1) % usize_size ≡ s.channel.queue_cnt + 1
      no_wrap = omega (arith, t.counted, t.small)

  pub sent-Tallies :
      (s : Linked T State) (v : T) (q : List T) (ts : List ℕ)
      → Tallies s q ts
      → length q < s.channel.inner.bound
      → length ts < capacity s.reactor.reactor_tag_buffer
      → Tallies (sent s v) (q ++ v ∷ []) (ts ++ s.channel.reactor_tag ∷ [])
  sent-Tallies s v q ts t room space = record {
    queue = ap (λ (xs : List T). xs ++ v ∷ []) t.queue;
    counted = omega (arith, t.counted, length-append q (v ∷ []));
    fits = omega (arith, length-append q (v ∷ []));
    small = t.small;
    receiver = t.receiver;
    tags = pushed-Holds s.reactor.reactor_tag_buffer ts s.channel.reactor_tag t.tags space;
  }

module _ {T M : Type 0} where
  -- What a poll that finds a message leaves behind.
  abbrev pub taken : Linked T M → List T → Linked T M
  taken s rest = record s {
    channel = record (s.channel) {
      inner = record (s.channel.inner) { queue = rest };
      queue_cnt = s.channel.queue_cnt - 1;
    };
  }

  pub poll-empty :
      (s : Linked T M) (w : Waker) (ts : List ℕ)
      → Tallies s [] ts
      → poll_recv s w ≡ (pending, poll_empty s w)
  unfolding poll_recv
  poll-empty s w ts t = let none_there : s.channel.queue_cnt ≡ 0 = t.counted in rw none_there

  pub poll-eq-taken :
      (s : Linked T M) (w : Waker) (v : T) (rest : List T) (ts : List ℕ)
      → Tallies s (v ∷ rest) ts
      → poll_recv s w ≡ (ready (ok v), taken s rest)
  unfolding poll_recv poll_some SyncChannel.try_recv
  poll-eq-taken s w v rest ts t = rw (some_there, t.queue) (rw less)
    where
      some_there : (s.channel.queue_cnt == 0) ≡ false
      some_there = ground (arith, t.counted)

      less : (s.channel.queue_cnt + (usize_size - 1)) % usize_size ≡ s.channel.queue_cnt - 1
      less = omega (arith, t.counted, t.fits, t.small)

  pub taken-Tallies :
      (s : Linked T M) (v : T) (rest : List T) (ts : List ℕ)
      → Tallies s (v ∷ rest) ts
      → Tallies (taken s rest) rest ts
  taken-Tallies s v rest ts t = record {
    queue = refl;
    counted = omega (arith, t.counted);
    fits = omega (arith, t.fits);
    small = t.small;
    receiver = t.receiver;
    tags = t.tags;
  }

  pub poll_empty-Tallies :
      (s : Linked T M) (w : Waker) (q : List T) (ts : List ℕ)
      → Tallies s q ts
      → Tallies (poll_empty s w) q ts
  unfolding poll_empty Reactor.store_waker_channel
  poll_empty-Tallies s w q ts t = record {
    queue = t.queue;
    counted = t.counted;
    fits = t.fits;
    small = t.small;
    receiver = t.receiver;
    tags = t.tags;
  }
