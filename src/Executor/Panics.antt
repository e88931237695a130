-- ===== src/Executor/Panics.antt =====
-- What a task that panics does to its executor (src/executor.rs).
use hooch.Base.{
  ℕ, ◌≡◌, refl, true, false, some, [], ◌∷◌, ◌++◌, length, length-append, arith, done, blocked, ok,
}
use hooch.SyncChannel
use hooch.SyncChannel.{SyncChannel, send-room, send-full}
use hooch.Executor.{Polled, unwinds, Cell, forward_task}

-- The channel that `build` makes, with `n` panics in it, of which none has been taken.
pub record Reports (c : SyncChannel (Unit {0})) (n : ℕ) : Type 0 where
  pub bound : c.bound ≡ 1
  pub receiver : c.receiver ≡ true
  pub told : length c.queue ≡ n

abbrev pub with_report : SyncChannel (Unit {0}) → SyncChannel (Unit {0})
with_report c = record c { queue = c.queue ++ tt ∷ [] }

pub with_report-Reports : (c : SyncChannel (Unit {0})) → Reports c 0 → Reports (with_report c) 1
with_report-Reports c r = record {
  bound = r.bound;
  receiver = r.receiver;
  told = omega (arith, r.told, length-append c.queue (tt ∷ []));
}

pub report-room :
    (c : SyncChannel (Unit {0})) → Reports c 0 → SyncChannel.send c tt ≡ done (ok tt, with_report c)
report-room c r = send-room c tt r.receiver (omega (arith, r.bound, r.told))

pub report-full : (c : SyncChannel (Unit {0})) → Reports c 1 → SyncChannel.send c tt ≡ blocked
report-full c r = send-full c tt r.receiver (omega (arith, r.bound, r.told))

module _ {Fut : Type 0} (poll : Fut → Polled Fut) where
  -- A first panic of a task is reported, and its future is poisoned.
  pub forward_task-unwinds :
      (cell : Cell Fut) (a a' : Fut) (c : SyncChannel (Unit {0}))
      → cell.future ≡ some a
      → cell.poisoned ≡ false
      → poll a ≡ unwinds a'
      → Reports c 0
      → forward_task poll cell c
        ≡ done (record { future = some a'; poisoned = true }, with_report c)
  unfolding forward_task
  forward_task-unwinds cell a a' c there sound bad r = rw (sound, there, bad, report-room c r) refl

  -- One whose report has no room makes the executor wait.
  pub forward_task-waits :
      (cell : Cell Fut) (a a' : Fut) (c : SyncChannel (Unit {0}))
      → cell.future ≡ some a
      → cell.poisoned ≡ false
      → poll a ≡ unwinds a'
      → Reports c 1
      → forward_task poll cell c ≡ blocked
  unfolding forward_task
  forward_task-waits cell a a' c there sound bad r = rw (sound, there, bad, report-full c r) refl
