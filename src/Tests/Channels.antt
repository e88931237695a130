-- ===== src/Tests/Channels.antt =====
-- The theorems about src/sync/mpsc/bounded_channel.rs at a small channel.
use hooch.Base.{
  ℕ, ◌≡◌, ◌≤◌, refl, arith, true, none, Option, List, [], ◌∷◌, length, ok, err, done, Returns,
  length-replicate,
}
use hooch.Ring
use hooch.Ring.{capacity}
use hooch.Ring.Fifo.{new-Holds}
use hooch.SyncChannel
use hooch.SyncChannel.{SyncChannel, recv_error}
use hooch.Mio.{counting, counting-NeverFails}
use hooch.Reactor.{Reactor, pending, ready}
use hooch.Reactor.Drain.{wakers_of}
use hooch.Channel.{Linked, poll_recv, try_recv}
use hooch.Channel.Counts.{Tallies}
use hooch.Channel.Order.{Op, sends, polls, deliver, run, messages_in_order}
use hooch.Channel.Tags.{Life, cloned, dropped, alive, live, live_keeps_tag}
use hooch.Channel.Closed.{polled, errors_misplaced}
use hooch.Channel.Wakeups.{looking, returned, Race, Reach, wakeup_missed}

-- A reactor with room for four tags, and no tag in its buffer.
abbrev pub small_reactor : Reactor
small_reactor = record {
  reactor_tag_buffer = Ring.new 4;
  reactor_tags = λ tag. none;
  statuses = λ token. none;
  next_tag = 6;
  next_token = 1;
}

-- A channel of two messages, with tag 5, `senders` senders, and the messages `q` in it.
abbrev pub two_of : {T : Type 0} → ℕ → List T → Linked T ℕ
two_of senders q = record {
  channel = record {
    inner = record { bound = 2; queue = q; receiver = true; senders = senders };
    queue_cnt = length q;
    reactor_tag = 5;
    clone_count = senders;
  };
  reactor = small_reactor;
  mio = 0;
}

abbrev pub of_two : ℕ → List ℕ → Linked ℕ ℕ
of_two senders q = two_of senders q

pub two_of-Tallies : {T : Type 0} (q : List T) → length q ≤ 2 → Tallies (two_of 1 q) q []
two_of-Tallies q fits = record {
  queue = refl;
  counted = refl;
  fits = fits;
  small = omega arith;
  receiver = refl;
  tags = new-Holds 4 (omega arith);
}

pub of_two-Tallies : (q : List ℕ) → length q ≤ 2 → Tallies (of_two 1 q) q []
of_two-Tallies q fits = two_of-Tallies q fits

pub room_for_tags : 4 ≤ capacity small_reactor.reactor_tag_buffer
unfolding Ring.new
room_for_tags = omega (arith, length-replicate {A = Option ℕ} 4 none)

abbrev ops : List (Op ℕ)
ops = polls 9 ∷ sends 70 ∷ sends 80 ∷ polls 9 ∷ []

delivered : deliver [] ops ≡ (pending ∷ ready (ok 70) ∷ [], 80 ∷ [])
unfolding deliver
delivered = refl

messages_in_order_example :
    Returns
      (λ (answers, s).
        (answers ≡ (deliver [] ops).0) × (s.channel.inner.queue ≡ (deliver [] ops).1))
      (run counting (of_two 1 []) ops)
messages_in_order_example =
    messages_in_order counting ops (of_two 1 []) [] [] counting-NeverFails
      (of_two-Tallies [] (omega arith)) (omega arith, (omega arith, tt)) room_for_tags

wakeup_missed_example :
    (q : Race ℕ counting) × Reach ℕ counting 9
      (record { linked = of_two 1 []; receiver = looking; woken = [] })
      q
    × (q.receiver ≡ returned pending)
    × Tallies q.linked (70 ∷ []) []
    × (q.woken ≡ wakers_of small_reactor.reactor_tags [])
wakeup_missed_example =
    wakeup_missed ℕ counting (of_two 1 []) 9 70 [] counting-NeverFails
      (of_two-Tallies [] (omega arith)) (omega arith) (omega (arith, room_for_tags)) refl

errors_misplaced_example :
    let (taken_out, u) = try_recv (of_two 1 (70 ∷ [])) in
    ((poll_recv (polled (of_two 0 []) (8 ∷ 9 ∷ [])) 9).0 ≡ pending)
    × (SyncChannel.recv (of_two 0 []).channel.inner
        ≡ done (err recv_error, (of_two 0 []).channel.inner))
    × (taken_out ≡ ok 70)
    × ((poll_recv u 9).0 ≡ ready (err recv_error))
    × (u.channel.inner.senders ≡ 1)
errors_misplaced_example =
    errors_misplaced (8 ∷ 9 ∷ []) (of_two 0 []) (of_two 1 (70 ∷ [])) 9 70 []
      (record { senders = refl; queue = refl; counted = refl })
      (of_two-Tallies (70 ∷ []) (omega arith))

abbrev lives : List Life
lives = cloned ∷ dropped ∷ dropped ∷ []

live_keeps_tag_example :
    ((live (of_two 1 []) lives).reactor ≡ small_reactor)
    × ((live (of_two 1 []) lives).channel.clone_count ≡ alive 1 lives)
    × ((live (of_two 1 []) lives).channel.inner.senders ≡ alive 1 lives)
live_keeps_tag_example =
    live_keeps_tag lives (of_two 1 []) 1 refl refl (omega arith)
      (omega arith, (omega arith, (omega arith, tt)))
