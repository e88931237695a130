-- ===== src/Timeout.antt =====
-- src/time/timeout.rs, `Timeout`.
pub mod Race
pub mod Expires
use hooch.Base.{ℕ, Exec, done, ◌>>=◌, Result, ok, err}
use hooch.Reactor.{Poll, pending, ready}
use hooch.Sleep.{SleepFut, unstarted}

pub data TimeoutError : Type 0 where
  timeout_error : TimeoutError

pub record Timeout (Fut Sleep : Type 0) : Type 0 where
  pub fut : Fut
  pub sleep : Sleep

-- The polls of the two futures, which change what they share, the `World`.
module _ {T Fut Sleep World : Type 0} (poll_fut : Fut → World → Exec (Poll T × Fut × World))
    (poll_sleep : Sleep → World → Exec (Poll (Unit {0}) × Sleep × World)) where
  unfoldable pub poll :
      Timeout Fut Sleep → World → Exec (Poll (Result T TimeoutError) × Timeout Fut Sleep × World)
  poll t world = do
    (timed_out, sleep, world1) ← poll_sleep t.sleep world
    elim timed_out [
      | ready _ ↦ done (ready (err timeout_error), record t { sleep = sleep }, world1)
      | pending ↦ (do
        (value, fut, world2) ← poll_fut t.fut world1
        done (
          elim value [ ready v ↦ ready (ok v) | pending ↦ pending ],
          record { fut = fut; sleep = sleep },
          world2,
        ))
    ]

-- What `timeout` polls, with the future of `sleep` and the reactor.
unfoldable pub timeout : {Fut : Type 0} → Fut → ℕ → Timeout Fut SleepFut
timeout fut duration = record { fut = fut; sleep = unstarted duration }
