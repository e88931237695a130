-- ===== src/Tests/Timers.antt =====
-- The theorems about src/time at small values.
use hooch.Base.{
  ℕ, ◌+◌, ◌≡◌, refl, arith, false, none, List, [], ◌∷◌, ltb, if◌then◌else◌, done, ok, err, Returns,
}
use hooch.Reactor.{pending, ready, on_event}
use hooch.Reactor.Readiness
use hooch.Reactor.Readiness.{Op, polls, event, step}
use hooch.Sleep
use hooch.Sleep.{Timers, NeverFail, Sleep}
use hooch.Sleep.Expiry.{sleeps_until_event}
use hooch.Timeout.{timeout_error}
use hooch.Timeout.Race.{drive, earlier_decides}
use hooch.Tests.Channels.{small_reactor}
use hooch.Timeout.Expires.{poll_timeout, timeout_expires}
use hooch.Timeout.{timeout}

-- Timers whose state counts them.
abbrev counted_timers : Timers
counted_timers = record {
  State = ℕ;
  new = λ n. (ok n, n + 1);
  set = λ timer duration n. (ok tt, n);
  register = λ timer token n. (ok tt, n);
}

counted_timers-NeverFail : NeverFail counted_timers
counted_timers-NeverFail = record {
  makes = λ n. (n, refl);
  sets = λ timer duration n. refl;
  registers = λ timer token n. refl;
}

abbrev nap : Sleep
nap = record { duration = 100; has_polled = false; mio_token = 3; timer = none }

abbrev pub elsewhere : List Op
elsewhere = polls 2 8 ∷ event 2 ∷ []

sleeps_until_event_example :
    Returns
      (λ (answer, s, r, os).
        let r1 = Readiness.run r elsewhere in
        let r2 = step r1 (event 3) in
        (answer ≡ pending)
        × (Sleep.poll counted_timers s r1 os 8 ≡ done (pending, s, r1, os))
        × (on_event r1 3 ≡ done (9 ∷ [], r2))
        × (Sleep.poll counted_timers s r2 os 8 ≡ done (ready tt, s, r2, os)))
      (Sleep.poll counted_timers nap small_reactor 0 9)
sleeps_until_event_example =
    sleeps_until_event counted_timers counted_timers-NeverFail nap small_reactor 0 9 8 elsewhere
      refl (λ e. omega (arith, e)) ((λ e. omega (arith, e)), ((λ e. omega (arith, e)), tt))

-- A future that is ready at its third poll, and a sleep that is at its sixth.
earlier_decides_example :
    drive {T = ℕ} 9
      (record {
        fut = record { polls_left = 2; value = 70 };
        sleep = record { polls_left = 5; value = tt };
      })
      0
    ≡ done (if ltb 2 5 then (ok 70, 0 + 3) else (err timeout_error, 0 + 5))
earlier_decides_example = earlier_decides 2 5 9 0 70 (omega arith)

timeout_expires_example :
    Returns
      (λ (answer, t, (r, os)).
        let r1 = Readiness.run r elsewhere in
        let r2 = step r1 (event 1) in
        (answer ≡ pending)
        × (poll_timeout counted_timers {T = ℕ} 8 t r1 os ≡ done (pending, t, (r1, os)))
        × (on_event r1 1 ≡ done (9 ∷ [], r2))
        × Returns
            (λ (answer', _, _). answer' ≡ ready (err timeout_error))
            (poll_timeout counted_timers {T = ℕ} 8 t r2 os))
      (poll_timeout counted_timers {T = ℕ} 9 (timeout tt 100) small_reactor 0)
timeout_expires_example =
    timeout_expires counted_timers counted_timers-NeverFail ℕ 100 small_reactor 0 9 8 elsewhere
      (λ e. omega (arith, e)) ((λ e. omega (arith, e)), ((λ e. omega (arith, e)), tt))
