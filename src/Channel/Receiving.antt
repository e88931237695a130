-- ===== src/Channel/Receiving.antt =====
-- The accesses of `BoundedReceiver::poll_recv` (src/sync/mpsc/bounded_channel.rs) while other threads
-- send.
use hooch.Base.{
  ℕ, ◌+◌, ◌-◌, ◌%◌, ◌≡◌, ◌<◌, refl, ap, sym, ◌∙◌, subst, List, [], ◌∷◌, ◌++◌, append-nil,
  append_assoc, length, arith, Bool-cases, inl, inr, ◌==◌, usize_size,
}
use hooch.SyncChannel.{try_recv-some}
use hooch.Mio.{MioWaker}
use hooch.Reactor.{Waker, pending}
use hooch.Channel.{Linked, poll_empty}
use hooch.Channel.Threads.{
  RecvPc, looking, storing, taking, uncounting, answered, recv_access, Threads, takes,
}
use hooch.Channel.Invariant.{counted_still, Sound, Inv}

module _ (T : Type 0) (mio : MioWaker) (n : ℕ) where
  open mio use {State}

  -- The threads after an access of the receiver.
  abbrev polled : Threads T State → RecvPc T × Linked T State → Threads T State
  polled q (pc, s) = record q {
    linked = s;
    receiver = pc;
    received = q.received ++ takes q.receiver pc;
  }

  -- An access of the receiver that leaves the channel alone.
  still-Inv :
      (q : Threads T State) (pc pc' : RecvPc T) (s : Linked T State)
      → Inv n q
      → q.receiver ≡ pc
      → counted_still pc ≡ counted_still pc'
      → takes pc pc' ≡ []
      → s.channel ≡ q.linked.channel
      → Sound pc' q.linked.channel.queue_cnt
      → Inv n (polled q (pc', s))
  still-Inv q pc pc' s inv at same none_taken kept sound = record {
    order = rw (kept, at, none_taken, append-nil) inv.order;
    counted = rw kept (omega (arith, inv.counted, ap counted_still at, same));
    fits = rw kept inv.fits;
    small = rw kept inv.small;
    alive = rw kept inv.alive;
    sound = rw kept sound;
  }

  taking_access :
      (w : Waker) (s : Linked T State) (v : T) (rest : List T)
      → s.channel.inner.queue ≡ v ∷ rest
      → recv_access w taking s ≡ (
        uncounting v,
        record s {
          channel = record (s.channel) { inner = record (s.channel.inner) { queue = rest } };
        },
      )
  unfolding recv_access
  taking_access w s v rest e = rw (try_recv-some s.channel.inner v rest e) refl

  takes-Inv :
      (q : Threads T State) (w : Waker) (queue : List T)
      → Inv n q
      → q.receiver ≡ taking
      → q.linked.channel.inner.queue ≡ queue
      → Inv n (polled q (recv_access w taking q.linked))
  takes-Inv q w [] inv at e = absurd (
      omega (
        arith,
        inv.counted,
        ap length e,
        ap counted_still at,
        subst (λ (r : RecvPc T). Sound r q.linked.channel.queue_cnt) at inv.sound,
      ))
  takes-Inv q w (v ∷ rest) inv at e =
      subst (λ x. Inv n (polled q x)) (sym (taking_access w q.linked v rest e))
        (record {
          order = rw at (
              append_assoc q.received (v ∷ []) rest
              ∙ ap (λ (xs : List T). q.received ++ xs) (sym e)
              ∙ inv.order);
          counted = omega (arith, inv.counted, ap counted_still at, ap length e);
          fits = omega (arith, inv.fits, ap length e);
          small = inv.small;
          alive = inv.alive;
          sound = subst (λ (r : RecvPc T). Sound r q.linked.channel.queue_cnt) at inv.sound;
        })

  uncounts-Inv :
      (q : Threads T State) (w : Waker) (v : T)
      → Inv n q
      → q.receiver ≡ uncounting v
      → Inv n (polled q (recv_access w (uncounting v) q.linked))
  unfolding recv_access
  uncounts-Inv q w v inv at = record {
    order = rw (at, append-nil) inv.order;
    counted = omega (arith, no_wrap, positive, inv.counted, ap counted_still at);
    fits = inv.fits;
    small = inv.small;
    alive = inv.alive;
    sound = tt;
  }
    where
      positive : 0 < q.linked.channel.queue_cnt
      positive = subst (λ (r : RecvPc T). Sound r q.linked.channel.queue_cnt) at inv.sound

      no_wrap :
          (q.linked.channel.queue_cnt + (usize_size - 1)) % usize_size
          ≡ q.linked.channel.queue_cnt - 1
      no_wrap = omega (arith, positive, inv.counted, inv.fits, inv.small, ap counted_still at)

  pub receiver-Inv :
      (q : Threads T State) (w : Waker) (pc : RecvPc T)
      → Inv n q
      → q.receiver ≡ pc
      → Inv n (polled q (recv_access w pc q.linked))
  unfolding recv_access poll_empty
  receiver-Inv q w looking inv at = elim (Bool-cases (q.linked.channel.queue_cnt == 0)) [
    | inl nil ↦ rw nil (still-Inv q looking storing q.linked inv at refl refl refl tt)
    | inr more ↦ rw more (still-Inv q looking taking q.linked inv at refl refl refl (ground arith))
  ]
  receiver-Inv q w storing inv at =
      still-Inv q storing (answered pending) _ inv at refl refl refl tt
  receiver-Inv q w taking inv at = takes-Inv q w q.linked.channel.inner.queue inv at refl
  receiver-Inv q w (uncounting v) inv at = uncounts-Inv q w v inv at
  receiver-Inv q w (answered a) inv at =
      still-Inv q (answered a) (answered a) q.linked inv at refl refl refl
        (subst (λ (r : RecvPc T). Sound r q.linked.channel.queue_cnt) at inv.sound)
