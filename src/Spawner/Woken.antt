-- ===== src/Spawner/Woken.antt =====
-- Whom the end of a spawned task (src/spawner.rs) wakes through the event loop of src/reactor.rs.
use hooch.Base.{
  Returns-map, subst, sym, ℕ, ◌≡◌, ◌<◌, refl, true, false, none, some, List, [], ◌∷◌, ◌++◌, length,
  arith, panicked, ok, Returns, inr, ◌==◌,
}
use hooch.Ring.{capacity}
use hooch.Mio.{MioWaker, NeverFails}
use hooch.Reactor
use hooch.Reactor.{Reactor, Waker, pending, ready, waker_token, on_event}
use hooch.Channel
use hooch.Channel.{Linked, poll_recv, poll_empty}
use hooch.Channel.Wakeups.{sent_event_wakes}
use hooch.Reactor.Drain.{WokenLast}
use hooch.Ring.Fifo.{Holds}
use hooch.Channel.Counts.{poll-empty, poll_empty-Tallies, Tallies, sent, send-eq-sent, sent-Tallies}
use hooch.Spawner.{BoxAny, of_type, JoinHandle, running, answered, poll, finish}
use hooch.Spawner.Joins.{poll-message, drop-Tallies}

module _ {T : Type 0} (mio : MioWaker) where
  open mio use {State}

  -- The poll of the handle by `w` is ready with the value, and a poll after it, by `w'`, panics.
  abbrev pub GetsValue : JoinHandle → T → Waker → Waker → Linked (BoxAny T) State → Type 0
  GetsValue jh v w w' s =
      Returns (λ (answer, jh', s'). (answer ≡ ready (ok v)) × (poll jh' s' w' ≡ panicked))
        (poll jh s w)

  -- The event of the reactor's waker wakes `w` last, and then the handle gets the value.
  abbrev pub Wakes : JoinHandle → T → Waker → Waker → Waker → Linked (BoxAny T) State → Type 0
  Wakes jh v w w' w'' s =
      Returns
        (λ (woken, r).
          ((before : List Waker) × (woken ≡ before ++ w ∷ []))
          × GetsValue jh v w' w'' (record s { reactor = r }))
        (on_event s.reactor waker_token)

module _ {T : Type 0} (mio : MioWaker) (works : NeverFails mio) where
  open mio use {State}

  drop-reactor :
      (s : Linked (BoxAny T) State)
      → 0 < s.channel.clone_count
      → (Channel.drop s).reactor ≡ s.reactor
  unfolding Channel.drop
  drop-reactor s some_sender =
      let alive : (s.channel.clone_count == 0) ≡ false = ground (arith, some_sender) in
      rw alive refl

  -- The messages do not depend on what the event loop does.
  after_event-Tallies :
      (s : Linked (BoxAny T) State) (r : Reactor) (q : List (BoxAny T)) (ts ts' : List ℕ)
      → Tallies s q ts
      → Holds r.reactor_tag_buffer ts'
      → Tallies (record s { reactor = r }) q ts'
  after_event-Tallies s r q ts ts' t holds = record {
    queue = t.queue;
    counted = t.counted;
    fits = t.fits;
    small = t.small;
    receiver = t.receiver;
    tags = holds;
  }

  event_then_poll :
      (jh : JoinHandle) (s : Linked (BoxAny T) State) (v : T) (ts : List ℕ) (w w' w'' : Waker)
      → jh.recv_fut ≡ some running
      → Tallies s [] ts
      → 0 < s.channel.inner.bound
      → 0 < s.channel.clone_count
      → length ts < capacity s.reactor.reactor_tag_buffer
      → Wakes mio jh v w w' w'' (Channel.drop (sent mio works (poll_empty s w) (of_type v)))
  unfolding poll_empty Reactor.store_waker_channel
  event_then_poll jh s v ts w w' w'' going t room some_sender space =
      Returns-map (WokenLast w) _ (on_event (Channel.drop s1).reactor waker_token)
        (subst (λ r. Returns (WokenLast w) (on_event r waker_token))
          (sym (drop-reactor s1 some_sender))
          (sent_event_wakes mio s w (of_type v) ts works t room space))
        (λ (woken, r) _ (told, empty). (
          told,
          poll-message mio works _ _ v [] w' w'' (inr going)
              (after_event-Tallies (Channel.drop s1) r (of_type v ∷ []) _ [] dropped empty),
        ))
    where
      s1 : Linked (BoxAny T) State
      s1 = sent mio works (poll_empty s w) (of_type v)

      dropped : Tallies (Channel.drop s1) (of_type v ∷ []) (ts ++ s.channel.reactor_tag ∷ [])
      dropped = drop-Tallies mio works s1 (of_type v ∷ []) _ some_sender (
          sent-Tallies mio works (poll_empty s w) (of_type v) [] ts (poll_empty-Tallies s w [] ts t)
            room space)

  -- A poll of a handle before the end of the task: it is pending, and what the end of the task and
  -- the event of the reactor's waker bring is for its waker.
  pub early_join :
      (jh : JoinHandle) (s : Linked (BoxAny T) State) (v : T) (ts : List ℕ) (w w' w'' : Waker)
      → jh.recv_fut ≡ none
      → Tallies s [] ts
      → 0 < s.channel.inner.bound
      → 0 < s.channel.clone_count
      → length ts < capacity s.reactor.reactor_tag_buffer
      → Returns
          (λ (answer, jh', s').
            (answer ≡ pending) × Returns (Wakes mio jh' v w w' w'') (finish mio s' v))
          (poll jh s w)
  unfolding poll answered finish poll_empty Reactor.store_waker_channel
  early_join jh s v ts w w' w'' fresh t room some_sender space =
      rw
        (
          fresh,
          poll-empty s w ts t,
          send-eq-sent mio works (poll_empty s w) (of_type v) [] ts (poll_empty-Tallies s w [] ts t)
              room space,
        )
        (
          refl,
          event_then_poll (record jh { has_awaited = true; recv_fut = some running }) s v ts w w'
              w'' refl t room some_sender space,
        )
