-- ===== src/Channel/Invariant.antt =====
-- The counter and the messages of a channel while calls on it interleave
-- (src/sync/mpsc/bounded_channel.rs), and the accesses of `BoundedSender::send`.
use hooch.Base.{
  ℕ, ◌+◌, ◌%◌, ◌≡◌, ◌<◌, ◌≤◌, refl, ap, sym, ◌∙◌, List, [], ◌∷◌, ◌++◌, append-nil, append_assoc,
  length, length-append, arith, true, Bool-cases, inl, inr, ltb, update, usize_size, total,
  total-update, ok, err, Whenever, Whenever-map,
}
use hooch.SyncChannel.{send-room, send-full}
use hooch.Mio.{MioWaker}
use hooch.Reactor.{pending, ready}
use hooch.Channel.{Linked}
use hooch.Channel.Threads.{
  SendPc, sending, counting, registering, waking, finished, RecvPc, looking, storing, taking,
  uncounting, answered, send_access, Threads, puts,
}

-- A sender whose message is in the inner channel and not yet counted.
abbrev pub uncounted : {T : Type 0} → SendPc T → ℕ
uncounted counting = 1
uncounted (sending v) = 0
uncounted registering = 0
uncounted waking = 0
uncounted (finished res) = 0

-- A receiver that has taken a message which is still counted.
abbrev pub counted_still : {T : Type 0} → RecvPc T → ℕ
counted_still (uncounting v) = 1
counted_still looking = 0
counted_still storing = 0
counted_still taking = 0
counted_still (answered a) = 0

-- What the locals of the receiver say about the counter: a receiver that is about to take has seen a
-- message, and no poll has been answered by an error.
abbrev pub Sound : {T : Type 0} → RecvPc T → ℕ → Type 0
Sound taking cnt = 0 < cnt
Sound (answered (ready (err e))) cnt = ⊥
Sound (answered (ready (ok v))) cnt = Unit
Sound (answered pending) cnt = Unit
Sound looking cnt = Unit
Sound storing cnt = Unit
Sound (uncounting v) cnt = 0 < cnt

module _ {T M : Type 0} (n : ℕ) where
  pub record Inv (q : Threads T M) : Type 0 where
    pub order : q.received ++ q.linked.channel.inner.queue ≡ q.sent
    pub counted :
        q.linked.channel.queue_cnt + total n (λ i. uncounted (q.senders i))
        ≡ length q.linked.channel.inner.queue + counted_still q.receiver
    pub fits : length q.linked.channel.inner.queue ≤ q.linked.channel.inner.bound
    pub small : q.linked.channel.inner.bound + 1 < usize_size
    pub alive : q.linked.channel.inner.receiver ≡ true
    pub sound : Sound q.receiver q.linked.channel.queue_cnt

module _ (T : Type 0) (mio : MioWaker) (n : ℕ) where
  open mio use {State}

  -- The threads after an access of sender `i`.
  abbrev pub moved : Threads T State → ℕ → SendPc T × Linked T State → Threads T State
  moved q i (pc, s) = record q {
    linked = s;
    senders = update q.senders i pc;
    sent = q.sent ++ puts (q.senders i) pc;
  }

  -- How the number of uncounted messages changes with one sender.
  pub total_moved :
      (q : Threads T State) (i : ℕ) (pc : SendPc T)
      → i < n
      → total n (λ a. uncounted (update q.senders i pc a)) + uncounted (q.senders i)
        ≡ total n (λ a. uncounted (q.senders a)) + uncounted pc
  total_moved q i pc lt = total-update n i uncounted q.senders pc lt

  pub counted_still-le : (r : RecvPc T) → counted_still r ≤ 1
  counted_still-le looking = omega arith
  counted_still-le storing = omega arith
  counted_still-le taking = omega arith
  counted_still-le (uncounting v) = omega arith
  counted_still-le (answered a) = omega arith

  Sound-le : (r : RecvPc T) (cnt cnt' : ℕ) → cnt ≤ cnt' → Sound r cnt → Sound r cnt'
  Sound-le looking cnt cnt' le h = tt
  Sound-le storing cnt cnt' le h = tt
  Sound-le taking cnt cnt' le h = omega (arith, h)
  Sound-le (uncounting v) cnt cnt' le h = omega (arith, h)
  Sound-le (answered pending) cnt cnt' le h = tt
  Sound-le (answered (ready (ok v))) cnt cnt' le h = tt
  Sound-le (answered (ready (err e))) cnt cnt' le h = h

  -- An access of a sender that leaves the channel alone.
  quiet-Inv :
      (q : Threads T State) (i : ℕ) (pc pc' : SendPc T) (s : Linked T State)
      → Inv n q
      → i < n
      → q.senders i ≡ pc
      → uncounted pc ≡ uncounted pc'
      → puts pc pc' ≡ []
      → s.channel ≡ q.linked.channel
      → Inv n (moved q i (pc', s))
  quiet-Inv q i pc pc' s inv lt at same none_put kept = record {
    order = rw (kept, at, none_put) (inv.order ∙ sym (append-nil q.sent));
    counted = rw kept (omega (arith, inv.counted, total_moved q i pc' lt, ap uncounted at));
    fits = rw kept inv.fits;
    small = rw kept inv.small;
    alive = rw kept inv.alive;
    sound = rw kept inv.sound;
  }

  sends-Inv :
      (q : Threads T State) (i : ℕ) (v : T)
      → Inv n q
      → i < n
      → q.senders i ≡ sending v
      → Whenever (λ x. Inv n (moved q i x)) (send_access mio (sending v) q.linked)
  unfolding send_access
  sends-Inv q i v inv lt at =
      elim (Bool-cases (ltb (length q.linked.channel.inner.queue) q.linked.channel.inner.bound)) [
        | inl room ↦
            rw (send-room q.linked.channel.inner v inv.alive (ground arith), Whenever)
              (record {
                order = rw at (
                    sym (append_assoc q.received q.linked.channel.inner.queue (v ∷ []))
                    ∙ ap (λ (xs : List T). xs ++ v ∷ []) inv.order);
                counted = omega (
                  arith,
                  inv.counted,
                  total_moved q i counting lt,
                  ap uncounted at,
                  length-append q.linked.channel.inner.queue (v ∷ []),
                );
                fits = ground (arith, length-append q.linked.channel.inner.queue (v ∷ []));
                small = inv.small;
                alive = inv.alive;
                sound = inv.sound;
              })
        | inr full ↦ rw (send-full q.linked.channel.inner v inv.alive (ground arith), Whenever) tt
      ]

  counts-Inv :
      (q : Threads T State) (i : ℕ)
      → Inv n q
      → i < n
      → q.senders i ≡ counting
      → Whenever (λ x. Inv n (moved q i x)) (send_access mio counting q.linked)
  unfolding send_access
  counts-Inv q i inv lt at = record {
    order = rw at (inv.order ∙ sym (append-nil q.sent));
    counted = omega (arith, no_wrap, inv.counted, total_moved q i registering lt, ap uncounted at);
    fits = inv.fits;
    small = inv.small;
    alive = inv.alive;
    sound = Sound-le q.receiver q.linked.channel.queue_cnt _ (omega (arith, no_wrap)) inv.sound;
  }
    where
      no_wrap : (q.linked.channel.queue_cnt + 1) % usize_size ≡ q.linked.channel.queue_cnt + 1
      no_wrap = omega (
        arith,
        inv.counted,
        inv.fits,
        inv.small,
        total_moved q i registering lt,
        ap uncounted at,
        counted_still-le q.receiver,
      )

  -- Any access of a sender.
  pub sender-Inv :
      (q : Threads T State) (i : ℕ) (pc : SendPc T)
      → Inv n q
      → i < n
      → q.senders i ≡ pc
      → Whenever (λ x. Inv n (moved q i x)) (send_access mio pc q.linked)
  unfolding send_access
  sender-Inv q i (sending v) inv lt at = sends-Inv q i v inv lt at
  sender-Inv q i counting inv lt at = counts-Inv q i inv lt at
  sender-Inv q i registering inv lt at =
      Whenever-map (λ x. Inv n (moved q i x)) _ _
        (λ r.
          quiet-Inv q i registering waking (record (q.linked) { reactor = r }) inv lt at refl refl
            refl)
  sender-Inv q i waking inv lt at =
      Whenever-map (λ x. Inv n (moved q i x)) _ _
        (λ u. quiet-Inv q i waking (finished (ok tt)) _ inv lt at refl refl refl)
  sender-Inv q i (finished res) inv lt at =
      quiet-Inv q i (finished res) (finished res) q.linked inv lt at refl refl refl
