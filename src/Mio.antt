-- ===== src/Mio.antt =====
-- The errors of `std::io`, and the waker of the package `mio` (`mio::Waker`), which src/reactor.rs,
-- src/sync/mpsc/bounded_channel.rs and src/fs/file.rs use. The code of `mio` is not in the
-- repository: its operation is a parameter.
use hooch.Base.{ℕ, ◌+◌, ◌≡◌, refl, Result, ok}

-- `other` holds an error of any kind but `WouldBlock`.
pub data IoError : Type 0 where
  would_block : IoError
  other : ℕ → IoError

-- `wake` asks the operating system to wake the thread that polls.
pub record MioWaker : Type 1 where
  pub State : Type 0
  pub wake : State → Result (Unit {0}) IoError × State

-- The calls of `wake` never fail.
pub record NeverFails (mio : MioWaker) : Type 0 where
  pub wakes : (s : mio.State) → (mio.wake s).0 ≡ ok tt

-- A waker that counts its calls.
abbrev pub counting : MioWaker
counting = record { State = ℕ; wake = λ n. (ok tt, n + 1) }

pub counting-NeverFails : NeverFails counting
counting-NeverFails = record { wakes = λ s. refl }
