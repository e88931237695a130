-- ===== src/Channel/Alone.antt =====
-- The accesses of `send` and `poll_recv` (src/sync/mpsc/bounded_channel.rs) that no other thread
-- interrupts.
use hooch.Base.{
  ◌≡◌, refl, arith, List, [], ◌∷◌, ◌==◌, Exec, done, panicked, blocked, undefined, ◌>>=◌, Result,
  ok, err, Bool-cases, inl, inr,
}
use hooch.SyncChannel
use hooch.SyncChannel.{SyncChannel, SendError, RecvError, recv_error}
use hooch.Mio.{MioWaker}
use hooch.Reactor
use hooch.Reactor.{Reactor, Waker, Poll, pending, ready}
use hooch.Channel.{Linked, announce, send, poll_some, poll_recv}
use hooch.Channel.Threads.{
  sending, counting, finished, looking, taking, answered, send_access, send_alone, recv_access,
  recv_alone,
}

module _ {T : Type 0} (mio : MioWaker) where
  open mio use {State, wake}

  after_send :
      (s : Linked T State) (m : Exec (Result (Unit {0}) (SendError T) × SyncChannel T))
      → ((do
        (res, inner) ← m
        done (
          elim res [ ok _ ↦ counting | err e ↦ finished (err e) ],
          record s { channel = record (s.channel) { inner = inner } },
        ))
          >>= λ (pc, s'). send_alone mio 3 pc s')
        ≡ ((do
          (res, inner) ← m
          let s' = record s { channel = record (s.channel) { inner = inner } }
          elim res [
            | err e ↦ done (err e, s')
            | ok _ ↦ (do s'' ← announce mio s'; done (ok tt, s''))
          ])
            >>= λ (res, s'). done (finished res, s'))
  unfolding send_alone send_access announce Reactor.register_reactor_tag
  after_send s (done (err e, inner)) = refl
  after_send s (done (ok u, inner)) = ground arith
  after_send s panicked = refl
  after_send s blocked = refl
  after_send s undefined = refl

  pub send_alone-eq-send :
      (s : Linked T State) (v : T)
      → send_alone mio 4 (sending v) s ≡ (do (res, s') ← send mio s v; done (finished res, s'))
  unfolding send_alone send_access send
  send_alone-eq-send s v = after_send s (SyncChannel.send s.channel.inner v)

module _ {T M : Type 0} where
  taking_alone :
      (s : Linked T M) (w : Waker)
      → recv_alone 2 w taking s ≡ (let (v, s') = poll_some s in (answered (ready v), s'))
  unfolding recv_alone recv_access poll_some SyncChannel.try_recv
  taking_alone s w = by_queue s.channel.inner.queue refl
    where
      by_queue :
          (q : List T)
          → s.channel.inner.queue ≡ q
          → recv_alone 2 w taking s ≡ (let (v, s') = poll_some s in (answered (ready v), s'))
      by_queue [] at = rw at refl
      by_queue (v ∷ q) at = rw at refl

  pub recv_alone-eq-poll_recv :
      (s : Linked T M) (w : Waker)
      → recv_alone 3 w looking s ≡ (let (answer, s') = poll_recv s w in (answered answer, s'))
  unfolding recv_alone recv_access poll_recv
  recv_alone-eq-poll_recv s w = elim (Bool-cases (s.channel.queue_cnt == 0)) [
    | inl nil ↦ rw nil refl
    | inr more ↦ rw more (taking_alone s w)
  ]
