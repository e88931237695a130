-- ===== src/Channel/Closed.antt =====
-- What the receiver of a channel (src/sync/mpsc/bounded_channel.rs) is told when no sender is left,
-- and after `try_recv`.
use hooch.Base.{ℕ, ◌≡◌, refl, List, [], ◌∷◌, done, ok, err}
use hooch.SyncChannel
use hooch.SyncChannel.{RecvError, recv_error}
use hooch.Reactor.{Waker, pending, ready}
use hooch.Channel.{Linked, poll_empty, poll_some, poll_recv, try_recv}
use hooch.Channel.Counts.{Tallies}

module _ {T M : Type 0} where
  -- No sender, no message: the channel is closed and empty.
  pub record IsClosed (s : Linked T M) : Type 0 where
    pub senders : s.channel.inner.senders ≡ 0
    pub queue : s.channel.inner.queue ≡ []
    pub counted : s.channel.queue_cnt ≡ 0

  pub polled : Linked T M → List Waker → Linked T M
  polled s [] = s
  polled s (w ∷ ws) = polled (poll_recv s w).1 ws

  closed-poll :
      (s : Linked T M) (w : Waker) → IsClosed s → poll_recv s w ≡ (pending, poll_empty s w)
  unfolding poll_recv
  closed-poll s w closed =
      let none_there : s.channel.queue_cnt ≡ 0 = closed.counted in rw none_there

  IsClosed-poll_empty : (s : Linked T M) (w : Waker) → IsClosed s → IsClosed (poll_empty s w)
  unfolding poll_empty
  IsClosed-poll_empty s w closed = record {
    senders = closed.senders;
    queue = closed.queue;
    counted = closed.counted;
  }

  -- On a channel that is empty and has no sender, each poll is pending, however often the receiver
  -- has polled before; the inner receiver would answer with an error at once.
  pub closed_never_ready :
      (ws : List Waker) (s : Linked T M) (w : Waker)
      → IsClosed s
      → ((poll_recv (polled s ws) w).0 ≡ pending)
        × (SyncChannel.recv s.channel.inner ≡ done (err recv_error, s.channel.inner))
  unfolding polled SyncChannel.recv
  closed_never_ready [] s w closed =
      (rw (closed-poll s w closed) refl, rw (closed.queue, closed.senders))
  closed_never_ready (w0 ∷ ws) s w closed = (
    rw (closed-poll s w0 closed)
        (closed_never_ready ws (poll_empty s w0) w (IsClosed-poll_empty s w0 closed)).0,
    rw (closed.queue, closed.senders),
  )

  -- When `try_recv` takes the only message of a channel, the counter stays at one: the next poll is
  -- ready with an error, whether or not senders are alive.
  pub try_recv_miscounts :
      (s : Linked T M) (v : T) (ts : List ℕ) (w : Waker)
      → Tallies s (v ∷ []) ts
      → let (taken_out, s') = try_recv s in
        (taken_out ≡ ok v)
        × ((poll_recv s' w).0 ≡ ready (err recv_error))
        × (s'.channel.inner.senders ≡ s.channel.inner.senders)
  unfolding try_recv poll_recv poll_some SyncChannel.try_recv
  try_recv_miscounts s v ts w t =
      let counted : s.channel.queue_cnt ≡ 1 = t.counted in rw (t.queue, counted) (refl, refl, refl)

  -- On a channel that is empty and has no sender, each poll is pending, however often the receiver
  -- has polled before; the inner receiver would answer with an error at once. And on a channel with
  -- one message, which `try_recv` takes, the counter stays at one: the next poll is ready with an
  -- error, while the senders are as many as before.
  pub errors_misplaced :
      (ws : List Waker) (s u : Linked T M) (w : Waker) (v : T) (ts : List ℕ)
      → IsClosed s
      → Tallies u (v ∷ []) ts
      → let (taken_out, u') = try_recv u in
        ((poll_recv (polled s ws) w).0 ≡ pending)
        × (SyncChannel.recv s.channel.inner ≡ done (err recv_error, s.channel.inner))
        × (taken_out ≡ ok v)
        × ((poll_recv u' w).0 ≡ ready (err recv_error))
        × (u'.channel.inner.senders ≡ u.channel.inner.senders)
  errors_misplaced ws s u w v ts closed t =
      let (never, inner_errs) = closed_never_ready ws s w closed in
      let (got, errs, senders) = try_recv_miscounts u v ts w t in
      (never, inner_errs, got, errs, senders)
