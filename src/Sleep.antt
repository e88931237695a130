-- ===== src/Sleep.antt =====
-- src/time/sleep.rs, `Sleep`.
pub mod Expiry
use hooch.Base.{
  ℕ, ◌≡◌, Bool, true, false, Option, none, some, if◌then◌else◌, Exec, done, panicked, ◌>>=◌, unwrap,
  Result, ok,
}
use hooch.Mio.{IoError}
use hooch.Reactor
use hooch.Reactor.{Reactor, Waker, Poll, pending, ready}

-- The timers of the package `nix` (`TimerFd`) and the registry of `mio`, whose code is not in the
-- repository. A timer is its file descriptor.
pub record Timers : Type 1 where
  pub State : Type 0
  pub new : State → Result ℕ IoError × State
  pub set : (timer duration : ℕ) → State → Result (Unit {0}) IoError × State
  pub register : (timer token : ℕ) → State → Result (Unit {0}) IoError × State

-- No call of the operating system fails.
pub record NeverFail (timers : Timers) : Type 0 where
  pub makes : (s : timers.State) → (timer : ℕ) × ((timers.new s).0 ≡ ok timer)
  pub sets : (timer duration : ℕ) (s : timers.State) → (timers.set timer duration s).0 ≡ ok tt
  pub registers : (timer token : ℕ) (s : timers.State) → (timers.register timer token s).0 ≡ ok tt

pub record Sleep : Type 0 where
  pub duration : ℕ
  pub has_polled : Bool
  pub mio_token : ℕ
  pub timer : Option ℕ

-- The future of the `async fn sleep`.
pub data SleepFut : Type 0 where
  unstarted : ℕ → SleepFut
  sleeping : Sleep → SleepFut
  ended : SleepFut

unfoldable pub from_duration : ℕ → Reactor → Sleep × Reactor
from_duration duration r =
    let (token, r') = Reactor.unique_token r in
    (record { duration = duration; has_polled = false; mio_token = token; timer = none }, r')

module _ (timers : Timers) where
  open timers use {State, new, set, register}

  -- The branch of `poll` for the first call.
  unfoldable pub first_poll :
      Sleep → Reactor → State → Waker → Exec (Poll (Unit {0}) × Sleep × Reactor × State)
  first_poll s r os waker =
      let r' = Reactor.status_store r s.mio_token waker in
      let (made, os1) = new os in
      do
        timer ← unwrap made
        let (was_set, os2) = set timer s.duration os1
        _ ← unwrap was_set
        let (registered, os3) = register timer s.mio_token os2
        _ ← unwrap registered
        done (pending, record s { has_polled = true; timer = some timer }, r', os3)

  unfoldable pub poll :
      Sleep → Reactor → State → Waker → Exec (Poll (Unit {0}) × Sleep × Reactor × State)
  poll s r os waker =
      if s.has_polled
      then done (if Reactor.has_token_progressed r s.mio_token then ready tt else pending, s, r, os)
      else first_poll s r os waker

  -- The poll of `sleep`. To poll it after its end is a panic.
  unfoldable pub poll_sleeper :
      Sleep → Reactor → State → Waker → Exec (Poll (Unit {0}) × SleepFut × Reactor × State)
  poll_sleeper sleeper r os waker = do
    (answer, sleeper', r', os') ← poll sleeper r os waker
    done (answer, elim answer [ ready _ ↦ ended | pending ↦ sleeping sleeper' ], r', os')

  unfoldable pub sleep :
      SleepFut → Reactor → State → Waker → Exec (Poll (Unit {0}) × SleepFut × Reactor × State)
  sleep (unstarted duration) r os waker =
      let (sleeper, r') = from_duration duration r in poll_sleeper sleeper r' os waker
  sleep (sleeping sleeper) r os waker = poll_sleeper sleeper r os waker
  sleep ended r os waker = panicked
