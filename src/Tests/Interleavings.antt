-- ===== src/Tests/Interleavings.antt =====
-- The theorem about interleaved calls on a channel (src/sync/mpsc/bounded_channel.rs) at one sender.
use hooch.Base.{ℕ, ◌≡◌, ◌≤◌, ◌≢◌, refl, arith, true, [], ◌∷◌, ◌++◌, length, ok, err, update}
use hooch.SyncChannel
use hooch.SyncChannel.{SyncChannel, RecvError}
use hooch.Mio.{counting}
use hooch.Reactor
use hooch.Reactor.{pending, ready}
use hooch.Channel.{bounded_channel}
use hooch.Channel.Threads
use hooch.Channel.Threads.{
  Threads, SendPc, Reach, here, later, sender_begins, sender_moves, receiver_begins, receiver_moves,
  sending, registering, finished, looking, taking, uncounting, answered, send_access, recv_access,
}
use hooch.Channel.Safety.{new_threads, interleaved_in_order}
use hooch.Tests.Channels.{small_reactor}

abbrev start : Threads ℕ ℕ
start = new_threads ℕ counting 1 2 small_reactor 0

-- The sender has counted its message, and the receiver has taken it and still counts it.
abbrev taken : Threads ℕ ℕ
taken = record {
  linked = record {
    channel = record {
      inner = record { bound = 2; queue = []; receiver = true; senders = 1 };
      queue_cnt = 1;
      reactor_tag = 6;
      clone_count = 1;
    };
    reactor = record small_reactor { next_tag = 7 };
    mio = 0;
  };
  senders =
      update (update (update (λ i. finished (ok tt)) 0 (sending 70)) 0 Threads.counting) 0
        registering;
  receiver = uncounting 70;
  sent = 70 ∷ [];
  received = 70 ∷ [];
}

taken_reached : Reach ℕ counting 1 start taken
unfolding bounded_channel Reactor.generate_reactor_tag SyncChannel.sync_channel send_access
    recv_access SyncChannel.send SyncChannel.try_recv
taken_reached =
    later
      (later
        (later
          (later
            (later (later here (sender_begins 0 70 (omega arith) refl))
              (sender_moves 0 (omega arith) refl))
            (receiver_begins refl))
          (sender_moves 0 (omega arith) refl))
        (receiver_moves 9))
      (receiver_moves 9)

interleaved_in_order_example :
    (taken.received ++ taken.linked.channel.inner.queue ≡ taken.sent)
    × (length taken.linked.channel.inner.queue ≤ 2)
    × (taken.linked.channel.queue_cnt ≤ 1)
    × ((e : RecvError) → taken.receiver ≢ answered (ready (err e)))
interleaved_in_order_example =
    interleaved_in_order ℕ counting 1 2 small_reactor 0 taken (omega arith) taken_reached
