-- ===== src/Channel/Wakeups.antt =====
-- Which polls of a receiver (src/sync/mpsc/bounded_channel.rs) the event loop of src/reactor.rs
-- answers with a wake-up, and which it does not.
use hooch.Base.{
  ℕ, ◌≡◌, ◌<◌, refl, ap, ◌∙◌, Bool-cases, inl, inr, Option, none, some, List, [], ◌∷◌, ◌++◌,
  append-nil, length, arith, ◌==◌, if◌then◌else◌, done, Result, ok, Returns, Returns-value,
}
use hooch.Ring.{capacity}
use hooch.SyncChannel.{RecvError}
use hooch.Mio.{MioWaker, NeverFails}
use hooch.Reactor
use hooch.Reactor.{
  Reactor, Waker, Poll, pending, ready, TagType, channel, waker_token, tag_wakes, on_event,
}
use hooch.Reactor.Drain.{
  WokenLast, last_tag_wakes, wakers_of, wakers_of-snoc, Drained, waker_event_drains,
}
use hooch.Channel.{Linked, send, poll_empty, poll_some, poll_recv}
use hooch.Channel.Counts.{Tallies, sent, send-eq-sent, sent-Tallies, poll_empty-Tallies}

module _ {T : Type 0} (mio : MioWaker) where
  open mio use {State}

  pub stored_wakes :
      (s : Linked T State) (w : Waker)
      → (poll_empty s w).reactor.reactor_tags s.channel.reactor_tag ≡ some (channel w)
  unfolding poll_empty Reactor.store_waker_channel
  stored_wakes s w = ground arith

  -- The event that follows a poll of an empty channel and a send.
  pub sent_event_wakes :
      (s : Linked T State) (w : Waker) (v : T) (ts : List ℕ) (works : NeverFails mio)
      → Tallies s [] ts
      → 0 < s.channel.inner.bound
      → length ts < capacity s.reactor.reactor_tag_buffer
      → Returns (WokenLast w) (on_event (sent mio works (poll_empty s w) v).reactor waker_token)
  unfolding poll_empty Reactor.store_waker_channel
  sent_event_wakes s w v ts works t room space =
      last_tag_wakes (sent mio works (poll_empty s w) v).reactor ts s.channel.reactor_tag w
        (sent-Tallies mio works (poll_empty s w) v [] ts (poll_empty-Tallies s w [] ts t) room
          space).tags
        (stored_wakes s w)

-- Where a receiver stands in `poll_recv`.
pub data PollPc (T : Type 0) : Type 0 where
  looking : PollPc T
  storing : PollPc T
  taking : PollPc T
  returned : Poll (Result T RecvError) → PollPc T

module _ {T M : Type 0} where
  -- Its next access: the load of the counter, then the waker or the message.
  unfoldable pub poll_access : Waker → PollPc T → Linked T M → PollPc T × Linked T M
  poll_access w looking s = (if s.channel.queue_cnt == 0 then storing else taking, s)
  poll_access w storing s = (returned pending, poll_empty s w)
  poll_access w taking s = let (v, s') = poll_some s in (returned (ready v), s')
  poll_access w (returned answer) s = (returned answer, s)

  looks :
      (s : Linked T M) (w : Waker)
      → s.channel.queue_cnt ≡ 0
      → poll_access w looking s ≡ (storing, s)
  unfolding poll_access
  looks s w nil = ground (arith, nil)

  -- The two accesses of a poll, with no other thread between them, are the poll as a whole.
  pub poll_alone-eq-poll_recv :
      (s : Linked T M) (w : Waker)
      → (let (pc, s') = poll_access w looking s in poll_access w pc s')
        ≡ (let (answer, s') = poll_recv s w in (returned answer, s'))
  unfolding poll_access poll_recv
  poll_alone-eq-poll_recv s w = elim (Bool-cases (s.channel.queue_cnt == 0)) [
    | inl nil ↦ rw nil
    | inr more ↦ rw more
  ]

module _ (T : Type 0) (mio : MioWaker) where
  open mio use {State}

  -- A receiver in the middle of a poll, with the wakers that the event loop has woken meanwhile.
  pub record Race : Type 0 where
    pub linked : Linked T State
    pub receiver : PollPc T
    pub woken : List Waker

  pub data Step (w : Waker) (q : Race) : Race → Type 0 where
    receiver_moves :
        {pc : PollPc T} {s : Linked T State}
        → poll_access w q.receiver q.linked ≡ (pc, s)
        → Step w q (record { linked = s; receiver = pc; woken = q.woken })
    sender_sends :
        (v : T) {s : Linked T State}
        → send mio q.linked v ≡ done (ok tt, s)
        → Step w q (record { linked = s; receiver = q.receiver; woken = q.woken })
    reactor_wakes :
        {woken : List Waker} {r : Reactor}
        → on_event q.linked.reactor waker_token ≡ done (woken, r)
        → Step w q (record {
          linked = record (q.linked) { reactor = r };
          receiver = q.receiver;
          woken = q.woken ++ woken;
        })

  pub data Reach (w : Waker) (q : Race) : Race → Type 0 where
    here : Reach w q q
    later : {p r : Race} → Reach w q p → Step w p r → Reach w q r

  -- A receiver polls an empty channel for the first time, no waker being stored for its tag. Some
  -- interleaving with one send and one event of the reactor's waker ends with the poll pending, the
  -- message in the channel and counted, no tag left in the buffer, and no task woken but those of
  -- the tags that were in the buffer at the start.
  pub wakeup_missed :
      (s : Linked T State) (w : Waker) (v : T) (ts : List ℕ)
      → NeverFails mio
      → Tallies s [] ts
      → 0 < s.channel.inner.bound
      → length ts < capacity s.reactor.reactor_tag_buffer
      → s.reactor.reactor_tags s.channel.reactor_tag ≡ none
      → (q : Race) × Reach w (record { linked = s; receiver = looking; woken = [] }) q
        × (q.receiver ≡ returned pending)
        × Tallies q.linked (v ∷ []) []
        × (q.woken ≡ wakers_of s.reactor.reactor_tags ts)
  unfolding poll_access
  wakeup_missed s w v ts works t room space silent =
      let ((woken, r), ends, (told, empty, same)) =
        Returns-value (Drained s1.reactor (wakers_of tags (ts ++ s.channel.reactor_tag ∷ []))) _
          (waker_event_drains s1.reactor (ts ++ s.channel.reactor_tag ∷ []) t1.tags) in
      (
        _,
        later
            (later
              (later (later here (receiver_moves (looks s w t.counted)))
                (sender_sends v (send-eq-sent mio works s v [] ts t room space)))
              (reactor_wakes ends))
            (receiver_moves refl),
        refl,
        poll_empty-Tallies (record s1 { reactor = r }) w (v ∷ []) []
            (record {
              queue = t1.queue;
              counted = t1.counted;
              fits = t1.fits;
              small = t1.small;
              receiver = t1.receiver;
              tags = empty;
            }),
        told
            ∙ wakers_of-snoc tags ts _
            ∙ ap (λ slot. wakers_of tags ts ++ tag_wakes slot) silent
            ∙ append-nil _,
      )
    where
      s1 : Linked T State
      s1 = sent mio works s v

      t1 : Tallies s1 (v ∷ []) (ts ++ s.channel.reactor_tag ∷ [])
      t1 = sent-Tallies mio works s v [] ts t room space

      tags : ℕ → Option TagType
      tags = s.reactor.reactor_tags
