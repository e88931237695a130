-- ===== src/Spawner/Typed.antt =====
-- What is in the boxes that a spawned task (src/spawner.rs) sends to its handle.
use hooch.Base.{
  Option, Result, panicked, ◌≡◌, ◌⊎◌, inl, inr, refl, Bool-cases, ltb, ◌==◌, none, some, List, [],
  ◌∷◌, ◌++◌, length, Exec, done, ◌>>=◌, unwrap, ok, err, Returns, Whenever, Whenever-bind,
  Whenever-of_Returns, Returns-map, Whenever-then,
}
use hooch.SyncChannel
use hooch.SyncChannel.{SyncChannel, SendError, RecvError}
use hooch.Mio.{MioWaker}
use hooch.Reactor
use hooch.Reactor.{Reactor, Poll, Waker, pending, ready}
use hooch.Channel
use hooch.Channel.{Linked, bounded_channel, announce, poll_recv, poll_empty, poll_some}
use hooch.Spawner.{
  BoxAny, of_type, of_other_type, downcast, JoinHandle, RecvFut, running, completed, answered, poll,
  finish,
}

-- All boxes hold a `T`.
abbrev pub AllTyped : {T : Type 0} → List (BoxAny T) → Type 0
AllTyped [] = Unit
AllTyped (of_type v ∷ q) = AllTyped q
AllTyped (of_other_type ∷ q) = ⊥

AllTyped-snoc :
    {T : Type 0} (q : List (BoxAny T)) (v : T) → AllTyped q → AllTyped (q ++ of_type v ∷ [])
AllTyped-snoc [] v h = tt
AllTyped-snoc (of_type u ∷ q) v h = AllTyped-snoc q v h
AllTyped-snoc (of_other_type ∷ q) v h = elim h [ ]

-- A handle is polled, or its wrapped future ends with a value.
pub data Event (T : Type 0) : Type 0 where
  is_polled : Waker → Event T
  ends : T → Event T

module _ {T : Type 0} (mio : MioWaker) where
  open mio use {State}

  abbrev IsTyped : Linked (BoxAny T) State → Type 0
  IsTyped s = AllTyped s.channel.inner.queue

  pub run :
      JoinHandle
      → Linked (BoxAny T) State
      → List (Event T)
      → Exec (JoinHandle × Linked (BoxAny T) State)
  run jh s [] = done (jh, s)
  run jh s (is_polled w ∷ es) = do (_, jh', s') ← poll jh s w; run jh' s' es
  run jh s (ends v ∷ es) = do s' ← finish mio s v; run jh s' es

  inner_send-Typed :
      (c : SyncChannel (BoxAny T)) (v : T)
      → AllTyped c.queue
      → Whenever (λ (_, c'). AllTyped c'.queue) (SyncChannel.send c (of_type v))
  unfolding SyncChannel.send
  inner_send-Typed c v h = elim (Bool-cases c.receiver) [
    | inl alive ↦ elim (Bool-cases (ltb (length c.queue) c.bound)) [
      | inl room ↦ rw (alive, room) (AllTyped-snoc c.queue v h)
      | inr full ↦ rw (alive, full) tt
    ]
    | inr dropped ↦ rw dropped h
  ]

  announce-Typed : (s : Linked (BoxAny T) State) → IsTyped s → Whenever IsTyped (announce mio s)
  unfolding announce
  announce-Typed s h =
      Whenever-then _ (Reactor.register_reactor_tag s.reactor s.channel.reactor_tag) _
        (λ r. Whenever-then _ (unwrap (mio.wake s.mio).0) _ (λ _. h))

  -- What follows the inner send, with its result.
  abbrev after_send :
      Linked (BoxAny T) State
      → Result (Unit {0}) (SendError (BoxAny T))
      → Exec (Result (Unit {0}) (SendError (BoxAny T)) × Linked (BoxAny T) State)
  after_send s (err e) = done (err e, s)
  after_send s (ok _) = do s'' ← announce mio s; done (ok tt, s'')

  after_send-Typed :
      (s : Linked (BoxAny T) State) (res : Result (Unit {0}) (SendError (BoxAny T)))
      → IsTyped s
      → Whenever (λ (_, s'). IsTyped s') (after_send s res)
  after_send-Typed s (err e) h = h
  after_send-Typed s (ok _) h =
      Whenever-bind IsTyped _ (announce mio s) _ (announce-Typed s h) (λ s'' h'. h')

  -- The end of the wrapped future boxes a `T`.
  finish-Typed :
      (s : Linked (BoxAny T) State) (v : T) → IsTyped s → Whenever IsTyped (finish mio s v)
  unfolding finish Channel.send Channel.drop
  finish-Typed s v h =
      Whenever-bind (λ (_, s'). IsTyped s') IsTyped (Channel.send mio s (of_type v)) _
        (Whenever-bind (λ (_, c'). AllTyped c'.queue) (λ (_, s'). IsTyped s')
          (SyncChannel.send s.channel.inner (of_type v)) _ (inner_send-Typed s.channel.inner v h)
          (λ (res, c) h'. after_send-Typed _ res h'))
        (λ _ h'. h')

  -- The box that a poll of the receiver is answered with, if any, holds a `T`.
  abbrev AnswerTyped : Poll (Result (BoxAny T) RecvError) → Type 0
  AnswerTyped pending = Unit
  AnswerTyped (ready (ok b)) = AllTyped (b ∷ [])
  AnswerTyped (ready (err e)) = Unit

  poll_some-Typed :
      (s : Linked (BoxAny T) State) (q : List (BoxAny T))
      → s.channel.inner.queue ≡ q
      → AllTyped q
      → let (v, s') = poll_some s in AnswerTyped (ready v) × IsTyped s'
  unfolding poll_some SyncChannel.try_recv
  poll_some-Typed s [] at h = rw at (tt, tt)
  poll_some-Typed s (of_type v ∷ q) at h = rw at (tt, h)
  poll_some-Typed s (of_other_type ∷ q) at h = elim h [ ]

  poll_recv-Typed :
      (s : Linked (BoxAny T) State) (w : Waker)
      → IsTyped s
      → let (answer, s') = poll_recv s w in AnswerTyped answer × IsTyped s'
  unfolding poll_recv poll_empty
  poll_recv-Typed s w h = elim (Bool-cases (s.channel.queue_cnt == 0)) [
    | inl none_there ↦ rw none_there (tt, h)
    | inr some_there ↦ rw some_there (poll_some-Typed s _ refl h)
  ]

  answered-Typed :
      (jh : JoinHandle) (s : Linked (BoxAny T) State) (answer : Poll (Result (BoxAny T) RecvError))
      → AnswerTyped answer
      → IsTyped s
      → Returns (λ (_, _, s'). IsTyped s') (answered jh s answer)
  unfolding answered downcast
  answered-Typed jh s pending a h = h
  answered-Typed jh s (ready (ok (of_type v))) a h = h
  answered-Typed jh s (ready (ok of_other_type)) a h = elim a [ ]
  answered-Typed jh s (ready (err e)) a h = h

  -- A poll of a handle whose future has not ended returns.
  poll-Typed :
      (jh : JoinHandle) (s : Linked (BoxAny T) State) (w : Waker) (fut : Option RecvFut)
      → jh.recv_fut ≡ fut
      → IsTyped s
      → ((jh.recv_fut ≡ some completed) × (poll jh s w ≡ panicked))
        ⊎ Returns (λ (_, _, s'). IsTyped s') (poll jh s w)
  unfolding poll answered
  poll-Typed jh s w (some completed) at h = inl (at, rw at refl)
  poll-Typed jh s w (some running) at h =
      let (a, h') = poll_recv-Typed s w h in
      inr (rw at (answered-Typed jh (poll_recv s w).1 (poll_recv s w).0 a h'))
  poll-Typed jh s w none at h =
      let (a, h') = poll_recv-Typed s w h in
      inr (rw at (answered-Typed jh (poll_recv s w).1 (poll_recv s w).0 a h'))

  poll-Whenever :
      (jh : JoinHandle) (s : Linked (BoxAny T) State) (w : Waker)
      → IsTyped s
      → Whenever (λ (_, _, s'). IsTyped s') (poll jh s w)
  poll-Whenever jh s w h = elim (poll-Typed jh s w _ refl h) [
    | inl (_, panics) ↦ rw panics tt
    | inr returns ↦ Whenever-of_Returns _ (poll jh s w) returns
  ]

  -- Whether a next poll panics.
  abbrev pub PanicsIfDone : Waker → JoinHandle × Linked (BoxAny T) State → Type 0
  PanicsIfDone w (jh, s) =
      ((jh.recv_fut ≡ some completed) × (poll jh s w ≡ panicked))
      ⊎ Returns (λ _. Unit {0}) (poll jh s w)

  run-PanicsIfDone :
      (es : List (Event T)) (jh : JoinHandle) (s : Linked (BoxAny T) State) (w : Waker)
      → IsTyped s
      → Whenever (PanicsIfDone w) (run jh s es)
  unfolding run
  run-PanicsIfDone [] jh s w h = elim (poll-Typed jh s w _ refl h) [
    | inl over ↦ inl over
    | inr returns ↦ inr (Returns-map _ _ (poll jh s w) returns (λ _ _ _. tt))
  ]
  run-PanicsIfDone (is_polled v ∷ es) jh s w h =
      Whenever-bind (λ (_, _, s'). IsTyped s') (PanicsIfDone w) (poll jh s v) _
        (poll-Whenever jh s v h) (λ (_, jh', s') h'. run-PanicsIfDone es jh' s' w h')
  run-PanicsIfDone (ends v ∷ es) jh s w h =
      Whenever-bind IsTyped (PanicsIfDone w) (finish mio s v) _ (finish-Typed s v h)
        (λ s' h'. run-PanicsIfDone es jh s' w h')

  -- The channel of a handle carries boxes of any type. Take the channel that `spawn` makes for a
  -- `T`, with any reactor, and any sequence of polls of the handle and of ends of the wrapped
  -- future that returns. Then the next poll of the handle returns as well, so that its `downcast`
  -- to `T` succeeds, or the handle has been ready before, and the poll panics.
  pub polls_downcast :
      (r r' : Reactor) (m : State) (jh : JoinHandle) (es : List (Event T)) (w : Waker)
      → Whenever
          (PanicsIfDone w)
          (run jh (record { channel = (bounded_channel 1 r).0; reactor = r'; mio = m }) es)
  unfolding bounded_channel SyncChannel.sync_channel
  polls_downcast r r' m jh es w = run-PanicsIfDone es jh _ w tt
