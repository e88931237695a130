-- ===== src/Timeout/Expires.antt =====
-- A `timeout` (src/time/timeout.rs) over a future that is never ready, with the `sleep` of
-- src/time/sleep.rs.
use hooch.Base.{
  ℕ, ◌≡◌, ◌≢◌, refl, List, [], ◌∷◌, Exec, done, ◌>>=◌, err, Result, subst, Returns, Returns-value,
}
use hooch.Reactor
use hooch.Reactor.{Reactor, Waker, Poll, pending, ready, waker_token, on_event}
use hooch.Reactor.Readiness
use hooch.Reactor.Readiness.{Op, event, step, Elsewhere}
use hooch.Sleep
use hooch.Sleep.{
  Timers, NeverFail, Sleep, SleepFut, unstarted, sleeping, ended, from_duration, poll_sleeper,
  sleep,
}
use hooch.Sleep.Expiry.{sleeps_until_event}
use hooch.Timeout.{Timeout, TimeoutError, timeout_error, timeout}
use hooch.Timeout

module _ (timers : Timers) where
  open timers use {State}

  -- The polls of `sleep` and of a future that is never ready and leaves the reactor alone.
  abbrev pub poll_sleep :
      Waker → SleepFut → Reactor × State → Exec (Poll (Unit {0}) × SleepFut × (Reactor × State))
  poll_sleep w f (r, os) = do
    (answer, f', r', os') ← sleep timers f r os w
    done (answer, f', (r', os'))

  abbrev pub poll_never :
      {T : Type 0} → Unit {0} → Reactor × State → Exec (Poll T × Unit {0} × (Reactor × State))
  poll_never f (r, os) = done (pending, f, (r, os))

  -- A poll of the timeout by `w`.
  abbrev pub poll_timeout :
      {T : Type 0}
      → Waker
      → Timeout (Unit {0}) SleepFut
      → Reactor
      → State
      → Exec (Poll (Result T TimeoutError) × Timeout (Unit {0}) SleepFut × (Reactor × State))
  poll_timeout w t r os = Timeout.poll poll_never (poll_sleep w) t (r, os)

  -- The timeout whose sleep has been polled.
  abbrev pub armed : Sleep → Timeout (Unit {0}) SleepFut
  armed s = record { fut = tt; sleep = sleeping s }

  poll-pending :
      (T : Type 0) (s s' : Sleep) (r r' : Reactor) (os os' : State) (w : Waker)
      → Sleep.poll timers s r os w ≡ done (pending, s', r', os')
      → poll_timeout {T = T} w (armed s) r os ≡ done (pending, armed s', (r', os'))
  unfolding Timeout.poll sleep poll_sleeper
  poll-pending T s s' r r' os os' w e = rw e refl

  poll-expired :
      (T : Type 0) (s s' : Sleep) (r r' : Reactor) (os os' : State) (w : Waker)
      → Sleep.poll timers s r os w ≡ done (ready tt, s', r', os')
      → Returns
          (λ (answer, _, _). answer ≡ ready (err timeout_error))
          (poll_timeout {T = T} w (armed s) r os)
  unfolding Timeout.poll sleep poll_sleeper
  poll-expired T s s' r r' os os' w e = rw e refl

module _ (timers : Timers) (works : NeverFail timers) where
  open timers use {State}

  first-pending :
      (T : Type 0) (duration : ℕ) (s' : Sleep) (r r' : Reactor) (os os' : State) (w : Waker)
      → let (s, r0) = from_duration duration r in
        Sleep.poll timers s r0 os w ≡ done (pending, s', r', os')
        → poll_timeout timers {T = T} w (timeout tt duration) r os
          ≡ done (pending, armed timers s', (r', os'))
  unfolding Timeout.poll sleep poll_sleeper timeout
  first-pending T duration s' r r' os os' w e = rw e refl

  -- Let no call of the operating system fail, let the future never be ready and leave the reactor
  -- alone, and let the next token be another than that of the reactor's own waker. The first poll
  -- of a `timeout` is pending. Whatever polls and events of other tokens follow, a second poll is
  -- pending as well; then the event of the sleep's token wakes the waker of the first poll and no
  -- other, and the poll that follows is ready with the timeout error.
  pub timeout_expires :
      (T : Type 0) (duration : ℕ) (r : Reactor) (os : State) (w w' : Waker) (ops : List Op)
      → r.next_token ≢ waker_token
      → Elsewhere r.next_token ops
      → Returns
          (λ (answer, t, (r', os')).
            let r1 = Readiness.run r' ops in
            let r2 = step r1 (event r.next_token) in
            (answer ≡ pending)
            × (poll_timeout timers {T = T} w' t r1 os' ≡ done (pending, t, (r1, os')))
            × (on_event r1 r.next_token ≡ done (w ∷ [], r2))
            × Returns
                (λ (answer', _, _). answer' ≡ ready (err timeout_error))
                (poll_timeout timers {T = T} w' t r2 os'))
          (poll_timeout timers {T = T} w (timeout tt duration) r os)
  unfolding from_duration Reactor.unique_token
  timeout_expires T duration r os w w' ops other elsewhere =
      let (s, r0) = from_duration duration r in
      let ((answer, s', r', os'), e, (waits, later, woken, over)) =
        Returns-value _ (Sleep.poll timers s r0 os w)
          (sleeps_until_event timers works s r0 os w w' ops refl other elsewhere) in
      rw
        (first-pending T duration s' r r' os os' w (
          subst (λ (a : Poll (Unit {0})). Sleep.poll timers s r0 os w ≡ done (a, s', r', os')) waits
            e))
        (
          refl,
          poll-pending timers T s' s' _ _ os' os' w' later,
          woken,
          poll-expired timers T s' s' _ _ os' os' w' over,
        )
