-- ===== src/Runtime/Delivered.antt =====
-- A task that waits for a message of a channel (src/sync/mpsc/bounded_channel.rs) comes back to an
-- executor when the message is sent.
use hooch.Base.{
  done, ◌>>=◌, ℕ, ◌≡◌, ◌<◌, ◌≤◌, refl, ap, ◌∙◌, false, Option, none, List, [], ◌∷◌, ◌++◌, length,
  arith, ok, Returns, Returns-value, Returns-map, Whenever-done, Bool, Result, subst, suc, ◌+◌,
}
use hooch.DashMap.{DashMap}
use hooch.Mio.{MioWaker, NeverFails}
use hooch.Ring.{capacity}
use hooch.SyncChannel.{RecvError}
use hooch.Task.{Task, has_aborted}
use hooch.Manager.{ExecutorTask, task}
use hooch.Manager.Placed.{Placed}
use hooch.Reactor
use hooch.Reactor.{Reactor, Waker, TagType, channel, ready, waker_token, tag_wakes, on_event, Poll}
use hooch.Reactor.Drain.{Drained, wakers_of, length-wakers_of, wakers_of-snoc, waker_event_drains}
use hooch.Channel.{Linked, poll_empty, poll_recv}
use hooch.Channel.Counts.{
  Tallies, sent, send-eq-sent, sent-Tallies, poll-empty, poll-eq-taken, poll_empty-Tallies,
}
use hooch.Channel.Wakeups.{stored_wakes}
use hooch.Waker.{Arcs}
use hooch.Waker.Ops.{AreHeld, run}
use hooch.Waker.Handing.{Balanced, use_less}
use hooch.Waker.Rounds.{round}
use hooch.Waker.Holding.{polled_wakers, round_balances}
use hooch.Waker.Kept.{Same, round-Keeping}
use hooch.Runtime.Stored.{
  StoredHeld, stores, stores-few, stores-AreHeld, stores-leaves, woken_before,
}
use hooch.Runtime.Waking.{wakes_place}
use hooch.Runtime.Delivery.{poll_calls, tag_calls, handle_event, wait_send_wake}

module _ {T : Type 0} (mio : MioWaker) where
  open mio use {State}

  -- The event that follows the send wakes the task last, and the message is there.
  abbrev Woken : Linked T State → List Waker → ℕ → T → List Waker × Reactor → Type 0
  Woken l before ptr v (woken, r) =
      (woken ≡ before ++ ptr ∷ []) × Tallies (record l { reactor = r }) (v ∷ []) []

  event_wakes :
      (works : NeverFails mio) (l : Linked T State) (ptr : ℕ) (v : T) (ts : List ℕ)
      → Tallies l [] ts
      → 0 < l.channel.inner.bound
      → length ts < capacity l.reactor.reactor_tag_buffer
      → let l' = sent mio works (poll_empty l ptr) v in
        Returns (Woken l' (woken_before l ptr ts) ptr v) (on_event l'.reactor waker_token)
  unfolding poll_empty Reactor.store_waker_channel
  event_wakes works l ptr v ts t room space =
      Returns-map
        (Drained l'.reactor (wakers_of l'.reactor.reactor_tags (ts ++ l.channel.reactor_tag ∷ [])))
        _ _ (waker_event_drains l'.reactor (ts ++ l.channel.reactor_tag ∷ []) t'.tags)
        (λ (woken, r) _ (told, empty, same). (
          told
              ∙ wakers_of-snoc l'.reactor.reactor_tags ts l.channel.reactor_tag
              ∙ ap (λ slot. wakers_of l'.reactor.reactor_tags ts ++ tag_wakes slot)
                  (stored_wakes mio l ptr),
          record {
            queue = t'.queue;
            counted = t'.counted;
            fits = t'.fits;
            small = t'.small;
            receiver = t'.receiver;
            tags = empty;
          },
        ))
    where
      l' : Linked T State
      l' = sent mio works (poll_empty l ptr) v

      t' : Tallies l' (v ∷ []) (ts ++ l.channel.reactor_tag ∷ [])
      t' =
          sent-Tallies mio works (poll_empty l ptr) v [] ts (poll_empty-Tallies l ptr [] ts t) room
            space

module _ {T : Type 0} (D : DashMap ℕ) (mio : MioWaker) (n : ℕ) where
  open D use {Map}
  open mio use {State}

  -- What holds once the event loop is done.
  abbrev pub Delivers :
      (running : ℕ → Option Task) (others wakers : ℕ → ℕ)
      → Task
      → T
      → Linked T State × Arcs Map
      → Type 0
  Delivers running others wakers t v (l', s') =
      ((poll_recv l' t.future).0 ≡ ready (ok v))
      × Placed D n t (record { sched = s'.sched; running = running })
      × Balanced D n running others 0 0 wakers s'

  -- The event loop, when the task's waker is stored and a message has been sent.
  event-Delivers :
      (running : ℕ → Option Task) (others wakers : ℕ → ℕ) (works : NeverFails mio)
      (l : Linked T State) (v : T) (s : Arcs Map) (t : Task) (ts : List ℕ)
      → Tallies l [] ts
      → 0 < l.channel.inner.bound
      → length ts < capacity l.reactor.reactor_tag_buffer
      → Balanced D n running others (suc (length ts)) (suc (length ts)) wakers s
      → AreHeld (tag_calls (woken_before l t.future ts)) wakers
      → 0 < wakers t.future
      → s.tasks t.future ≡ t
      → has_aborted s.sched.aborts t ≡ false
      → Returns (Delivers running others wakers t v) (
          let l' = sent mio works (poll_empty l t.future) v in
          (do
            (reactor, s'') ← handle_event D waker_token l'.reactor s
            done (record l' { reactor = reactor }, s'')))
  unfolding handle_event
  event-Delivers running others wakers works l v s t ts tallies room space b held some_held own
        live =
      let ((woken, r), happens, (told, t')) =
        Returns-value
          (Woken mio (sent mio works (poll_empty l t.future) v) (woken_before l t.future ts)
            t.future v)
          _ (event_wakes mio works l t.future v ts tallies room space) in
      let few : suc (length (woken_before l t.future ts)) ≤ suc (length ts) =
        omega (arith, length-wakers_of (poll_empty l t.future).reactor.reactor_tags ts) in
      let (s', returns, (b', placed)) =
        Returns-value _ (run D (tag_calls (woken_before l t.future ts ++ t.future ∷ [])) s) (
          wakes_place D n (woken_before l t.future ts) running others wakers s t
            (use_less D n running others _ _ _ _ wakers s few few b) held some_held own live) in
      rw (happens, told, returns)
        (
          ap (λ (x : Poll (Result T RecvError) × Linked T State). x.0)
              (poll-eq-taken _ t.future v [] [] t'),
          placed,
          b',
        )

  -- Let each task's `Arc` count the task's wakers, its places in the queues of the manager and the
  -- executors, and further references that stay as they are; the manager is alive and satisfies its
  -- invariant, and as many more tasks may wait, and references be made, as there are calls. Take a
  -- channel that is empty and has a positive bound, with wake-ups that never fail, and let the tags
  -- `ts` be in the reactor's buffer, with room for one more. The waker that is stored for the
  -- channel's tag, if any, is there, and so are those stored for `ts` once the poll is over. An
  -- executor that polls nothing has the live task `t` at the head of its channel; it polls `t`,
  -- which receives from the empty channel, and asks for work. Then a message is sent, and the event
  -- loop takes the event of the reactor's waker. All of this returns, and it never reaches for a
  -- task that is freed. In the end `t` is alone in the channel of an executor or waits in the
  -- manager, in a system that satisfies its invariant; the references are counted right, with one
  -- more waker of `t`, the one stored, and one less of the waker that it has displaced; and the
  -- next poll of the channel by `t` is ready with the message.
  pub message_delivered :
      (running : ℕ → Option Task) (others wakers : ℕ → ℕ) (l : Linked T State) (v : T)
      (s : Arcs Map) (e : ℕ) (t : Task) (rest : List ExecutorTask) (ts : List ℕ)
      → NeverFails mio
      → Tallies l [] ts
      → 0 < l.channel.inner.bound
      → length ts < capacity l.reactor.reactor_tag_buffer
      → Balanced D n running others (4 + length ts) (3 + length ts) wakers s
      → StoredHeld (l.reactor.reactor_tags l.channel.reactor_tag) wakers
      → AreHeld
          (tag_calls (woken_before l t.future ts))
          (polled_wakers (poll_calls l t.future) t.future wakers)
      → e < n
      → running e ≡ none
      → (s.sched.channels e).queue ≡ task t ∷ rest
      → s.tasks t.future ≡ t
      → has_aborted s.sched.aborts t ≡ false
      → Returns
          (Delivers running others (polled_wakers (poll_calls l t.future) t.future wakers) t v)
          (wait_send_wake D mio e t.future v l s)
  unfolding wait_send_wake poll_calls poll_empty Reactor.store_waker_channel
  message_delivered running others wakers l v s e t rest ts works tallies room space b stored held
        lt idle queue own live =
      let slot = l.reactor.reactor_tags l.channel.reactor_tag in
      let calls : poll_calls l t.future ≡ stores slot t.future =
        let nil : l.channel.queue_cnt ≡ 0 = tallies.counted in rw nil refl in
      let leaves = stores-leaves slot t.future wakers stored in
      let (s', returns, b') = Returns-value _ (round D e (stores slot t.future) s) (
        round_balances D n running others (stores slot t.future) (suc (length ts)) (suc (length ts))
          wakers s e t rest
          (use_less D n running others (4 + length ts) _ (3 + length ts) _ wakers s
            (omega (arith, stores-few slot t.future)) (omega (arith, stores-few slot t.future)) b)
          lt idle queue (stores-AreHeld slot t.future wakers stored) (omega (arith, leaves))) in
      let (tasks, aborts) =
        Whenever-done (Same s) _ returns (round-Keeping D e (stores slot t.future) s) in
      rw
        (
          calls,
          returns,
          poll-empty l t.future ts tallies,
          send-eq-sent mio works (poll_empty l t.future) v [] ts
              (poll_empty-Tallies l t.future [] ts tallies) room space,
        )
        (event-Delivers running others _ works l v s' t ts tallies room space b'
          (subst
            (λ ops.
              AreHeld (tag_calls (woken_before l t.future ts)) (polled_wakers ops t.future wakers))
            calls held)
          (ground (arith, leaves)) (ap (λ (all : ℕ → Task). all t.future) tasks ∙ own)
          (ap (λ (flags : ℕ → Bool). has_aborted flags t) aborts ∙ live))
