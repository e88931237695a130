-- ===== src/Sleep/Expiry.antt =====
-- When a `Sleep` (src/time/sleep.rs) is ready, and whom its timer wakes.
use hooch.Base.{
  ℕ, ◌≡◌, ◌≢◌, refl, sym, ap, ◌∙◌, Bool, true, false, some, List, [], ◌∷◌, if◌then◌else◌, arith,
  done, Returns, Returns-map,
}
use hooch.Reactor
use hooch.Reactor.{
  Reactor, Waker, Poll, pending, ready, Status, awaited, happened, waker_token, on_event,
  has_token_progressed, status_wakes,
}
use hooch.Reactor.Readiness
use hooch.Reactor.Readiness.{
  Op, event, step, Elsewhere, run-Elsewhere, on_event-eq-step, event-happened,
}
use hooch.Sleep.{Timers, NeverFail, Sleep, first_poll, poll}

module _ (timers : Timers) (works : NeverFail timers) where
  open timers use {State, new, set, register}

  -- A sleep that has been polled, with the waker of that poll stored for its token.
  pub record Armed (s : Sleep) (r : Reactor) (w : Waker) : Type 0 where
    pub has_polled : s.has_polled ≡ true
    pub waits : r.statuses s.mio_token ≡ some (awaited w)

  first_poll-Armed :
      (s : Sleep) (r : Reactor) (os : State) (w : Waker)
      → s.has_polled ≡ false
      → Returns
          (λ (answer, s', r', os').
            (answer ≡ pending) × (s'.mio_token ≡ s.mio_token) × Armed s' r' w)
          (poll timers s r os w)
  unfolding poll first_poll Reactor.status_store
  first_poll-Armed s r os w new_one =
      let (timer, made) = works.makes os in
      rw
        (
          new_one,
          made,
          works.sets timer s.duration (new os).1,
          works.registers timer s.mio_token (set timer s.duration (new os).1).1,
        )
        (refl, refl, record { has_polled = refl; waits = ground arith })

  later_poll :
      (s : Sleep) (r : Reactor) (os : State) (w : Waker) (told : Bool)
      → s.has_polled ≡ true
      → has_token_progressed r s.mio_token ≡ told
      → poll timers s r os w ≡ done (if told then ready tt else pending, s, r, os)
  unfolding poll
  later_poll s r os w told polled e = rw (polled, e) refl

  not_yet :
      (r : Reactor) (token : ℕ) (w : Waker)
      → r.statuses token ≡ some (awaited w)
      → has_token_progressed r token ≡ false
  unfolding has_token_progressed
  not_yet r token w e = ground (arith, e)

  after_event :
      (r : Reactor) (token : ℕ)
      → token ≢ waker_token
      → has_token_progressed (step r (event token)) token ≡ true
  unfolding has_token_progressed
  after_event r token other = ground (arith, event-happened r token other)

  -- Let no call of the operating system fail, and let a sleep that has not been polled have a token
  -- of its own. Its first poll is pending. Whatever polls and events of other tokens follow, a
  -- second poll, even by another waker, is pending as well; then the event of the token wakes the
  -- waker of the first poll and no other, and the poll that follows is ready.
  pub sleeps_until_event :
      (s : Sleep) (r : Reactor) (os : State) (w w' : Waker) (ops : List Op)
      → s.has_polled ≡ false
      → s.mio_token ≢ waker_token
      → Elsewhere s.mio_token ops
      → Returns
          (λ (answer, s', r', os').
            let r1 = Readiness.run r' ops in
            let r2 = step r1 (event s.mio_token) in
            (answer ≡ pending)
            × (poll timers s' r1 os' w' ≡ done (pending, s', r1, os'))
            × (on_event r1 s.mio_token ≡ done (w ∷ [], r2))
            × (poll timers s' r2 os' w' ≡ done (ready tt, s', r2, os')))
          (poll timers s r os w)
  sleeps_until_event s r os w w' ops new_one other elsewhere =
      Returns-map _ _ (poll timers s r os w) (first_poll-Armed s r os w new_one)
        (λ (answer, s', r', os') _ (waits, token, armed).
          let r1 : Reactor = Readiness.run r' ops in
          let stored : r1.statuses s.mio_token ≡ some (awaited w) =
            run-Elsewhere ops r' s.mio_token elsewhere ∙ ap r'.statuses (sym token) ∙ armed.waits in
          (
            waits,
            later_poll s' r1 os' w' false armed.has_polled
                (ap (has_token_progressed r1) token ∙ not_yet r1 s.mio_token w stored),
            on_event-eq-step r1 s.mio_token other
                ∙ ap (λ status. done (status_wakes status, step r1 (event s.mio_token))) stored,
            later_poll s' (step r1 (event s.mio_token)) os' w' true armed.has_polled (
                ap (has_token_progressed (step r1 (event s.mio_token))) token
                ∙ after_event r1 s.mio_token other),
          ))
