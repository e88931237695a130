-- ===== src/File/Wakeups.antt =====
-- How the opening of a file (src/fs/file.rs) goes on after its first poll, and whom it wakes.
use hooch.Base.{
  ℕ, ◌≡◌, ◌<◌, refl, ◌∙◌, true, false, none, some, List, [], ◌∷◌, ◌++◌, length, arith, done,
  Returns, Returns-map,
}
use hooch.Mio.{MioWaker, NeverFails}
use hooch.Ring.{capacity}
use hooch.Ring.Fifo.{Holds, pushed, push-eq-pushed, pushed-Holds}
use hooch.Reactor
use hooch.Reactor.{
  Reactor, Waker, Poll, pending, ready, TagType, channel, waker_token, tag_wakes, on_event,
}
use hooch.Reactor.Drain.{
  WokenLast, last_tag_wakes, wakers_of, wakers_of-nil, Drained, waker_event_drains,
}
use hooch.Pool.Deal.{IsValid, given, execute-eq-given}
use hooch.File.{FileOperation, Disk, BlockFn, Opening, first_poll, poll, block_fn}

-- A future that has not been polled, with a pool and a reactor that have room for its calls.
pub record IsFresh {D M : Type 0} (o : Opening D M) (operation : FileOperation) (ts : List ℕ)
    : Type 0 where
  pub unpolled : o.file.has_polled ≡ false
  pub to_do : o.file.file_operation ≡ some operation
  pub tags : Holds o.reactor.reactor_tag_buffer ts
  pub room : length ts < capacity o.reactor.reactor_tag_buffer
  pub valid : IsValid o.pool
  pub pool_room :
      length (o.pool.channels o.pool.pool.cursor).queue < (o.pool.channels o.pool.pool.cursor).bound

module _ {D M : Type 0} where
  -- What the first poll leaves behind: the tag in the buffer, its waker, and the closure in the pool.
  abbrev pub submitted : Opening D M → FileOperation → Waker → Opening D M
  submitted o operation w = record o {
    file = record (o.file) { has_polled = true; file_operation = none };
    reactor =
        Reactor.store_waker_channel
          (record (o.reactor) {
            reactor_tag_buffer = pushed o.reactor.reactor_tag_buffer o.file.reactor_tag;
          })
          o.file.reactor_tag w;
    pool = given o.pool (record { operation = operation; target = o.file.path });
  }

  pub poll-eq-submitted :
      (o : Opening D M) (operation : FileOperation) (ts : List ℕ) (w : Waker)
      → IsFresh o operation ts
      → poll o w ≡ done (pending, submitted o operation w)
  unfolding poll first_poll Reactor.register_reactor_tag
  poll-eq-submitted o operation ts w f =
      rw
        (
          f.unpolled,
          push-eq-pushed o.reactor.reactor_tag_buffer ts o.file.reactor_tag f.tags f.room,
        )
        (rw
          (
            f.to_do,
            execute-eq-given o.pool (record { operation = operation; target = o.file.path }) f.valid
                f.pool_room,
          )
          refl)

  pub submitted-Holds :
      (o : Opening D M) (operation : FileOperation) (ts : List ℕ) (w : Waker)
      → IsFresh o operation ts
      → Holds (submitted o operation w).reactor.reactor_tag_buffer (ts ++ o.file.reactor_tag ∷ [])
  unfolding Reactor.store_waker_channel
  submitted-Holds o operation ts w f =
      pushed-Holds o.reactor.reactor_tag_buffer ts o.file.reactor_tag f.tags f.room

  pub submitted-tag :
      (o : Opening D M) (operation : FileOperation) (w : Waker)
      → (submitted o operation w).reactor.reactor_tags o.file.reactor_tag ≡ some (channel w)
  unfolding Reactor.store_waker_channel
  submitted-tag o operation w = ground arith

module _ (disk : Disk) (mio : MioWaker) (works : NeverFails mio) where
  open disk use {perform}
  open mio use {wake}

  -- What the closure leaves behind.
  abbrev completed : Opening disk.State mio.State → FileOperation → Opening disk.State mio.State
  completed o operation = record o {
    file = record (o.file) { file_handle = some (perform operation o.file.path o.disk).0 };
    disk = (perform operation o.file.path o.disk).1;
    mio = (wake o.mio).1;
  }

  block_fn-eq-completed :
      (o : Opening disk.State mio.State) (operation : FileOperation)
      → block_fn disk mio (record { operation = operation; target = o.file.path }) o
        ≡ done (completed o operation)
  unfolding block_fn
  block_fn-eq-completed o operation = rw (works.wakes o.mio) refl

  poll-completed :
      (o : Opening disk.State mio.State) (operation : FileOperation) (w : Waker)
      → o.file.has_polled ≡ true
      → poll (completed o operation) w
        ≡ done (
          ready (perform operation o.file.path o.disk).0,
          record (completed o operation) { file = record (o.file) { file_handle = none } },
        )
  unfolding poll
  poll-completed o operation w polled = rw polled refl

  event_wakes :
      (o : Opening disk.State mio.State) (operation : FileOperation) (ts : List ℕ) (w : Waker)
      → IsFresh o operation ts
      → Returns (WokenLast w) (on_event (submitted o operation w).reactor waker_token)
  event_wakes o operation ts w f =
      last_tag_wakes (submitted o operation w).reactor ts o.file.reactor_tag w
        (submitted-Holds o operation ts w f) (submitted-tag o operation w)

  -- Let an opening not be polled yet, the tag buffer and the next worker's channel have room, and
  -- wake-ups never fail. The first poll is pending and puts the closure, with the operation and the
  -- path, at the end of the worker's channel. When the closure then runs before any event, the
  -- event of the reactor's waker wakes the task last and leaves no tag, and the next poll is ready
  -- with the result of the operation.
  pub opening_completes :
      (o : Opening disk.State mio.State) (operation : FileOperation) (ts : List ℕ) (w w' : Waker)
      → IsFresh o operation ts
      → let f : BlockFn = record { operation = operation; target = o.file.path } in
        let cursor = o.pool.pool.cursor in
        Returns
          (λ (answer, o').
            (answer ≡ pending)
            × ((o'.pool.channels cursor).queue ≡ (o.pool.channels cursor).queue ++ f ∷ [])
            × Returns
                (λ o''.
                  Returns (WokenLast w) (on_event o''.reactor waker_token)
                  × Returns
                      (λ (answer', _). answer' ≡ ready (perform operation o.file.path o.disk).0)
                      (poll o'' w'))
                (block_fn disk mio f o'))
          (poll o w)
  opening_completes o operation ts w w' f = rw (poll-eq-submitted o operation ts w f) (
    refl,
    ground arith,
    rw (block_fn-eq-completed (submitted o operation w) operation) (
      event_wakes o operation ts w f,
      rw (poll-completed (submitted o operation w) operation w' refl) refl,
    ),
  )

  still_pending :
      (o : Opening disk.State mio.State) (r : Reactor) (w : Waker)
      → o.file.has_polled ≡ true
      → o.file.file_handle ≡ none
      → Returns (λ (answer, _). answer ≡ pending) (poll (record o { reactor = r }) w)
  unfolding poll
  still_pending o r w polled none_yet = rw (polled, none_yet) refl

  -- In the same situation, let an event of the reactor's waker come between the first poll and the
  -- closure. It wakes the task, whose poll is pending; then the closure stores its result and wakes
  -- the reactor, but the event that follows wakes nobody, though the next poll would be ready with
  -- the result.
  pub completion_unnoticed :
      (o : Opening disk.State mio.State) (operation : FileOperation) (ts : List ℕ) (w w' : Waker)
      → IsFresh o operation ts
      → o.file.file_handle ≡ none
      → let f : BlockFn = record { operation = operation; target = o.file.path } in
        let o1 = submitted o operation w in
        Returns
          (λ (woken, r).
            ((before : List Waker) × (woken ≡ before ++ w ∷ []))
            × Returns (λ (answer, _). answer ≡ pending) (poll (record o1 { reactor = r }) w')
            × Returns
                (λ o'.
                  Returns (λ (woken', r'). woken' ≡ []) (on_event o'.reactor waker_token)
                  × Returns
                      (λ (answer, _). answer ≡ ready (perform operation o.file.path o.disk).0)
                      (poll o' w'))
                (block_fn disk mio f (record o1 { reactor = r })))
          (on_event o1.reactor waker_token)
  completion_unnoticed o operation ts w w' f none_yet =
      Returns-map (WokenLast w) _ _ (event_wakes o operation ts w f) (λ (woken, r) _ (told, empty).
        (
          told,
          still_pending (submitted o operation w) r w' refl none_yet,
          rw (block_fn-eq-completed (record (submitted o operation w) { reactor = r }) operation) (
            Returns-map (Drained r (wakers_of r.reactor_tags [])) _ _
                (waker_event_drains r [] empty)
                (λ (woken', r') _ drained. drained.0 ∙ wakers_of-nil r.reactor_tags),
            rw (poll-completed (record (submitted o operation w) { reactor = r }) operation w' refl)
                refl,
          ),
        ))
