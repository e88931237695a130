-- ===== src/Runtime/Whole.antt =====
-- A first `run_blocking` from `RuntimeBuilder::build` (src/runtime.rs) to its answer, with the executor
-- (src/executor.rs) that polls its task.
use hooch.Base.{ℕ, suc, ◌≡◌, false, none, some, update, done, ◌>>=◌, Returns}
use hooch.SyncChannel
use hooch.SyncChannel.{SyncChannel}
use hooch.DashMap.{DashMap}
use hooch.Task.{Task}
use hooch.Manager.{Scheduler}
use hooch.Manager.Safety.{Preserved}
use hooch.Executor.{Polled, Cell, Running, run}
use hooch.Runtime.{Runtime, World, get_manager, settle, end_blocking}

-- The cell of a task whose future is ready.
abbrev emptied : {Fut : Type 0} → Cell Fut
emptied = record { future = none; poisoned = false }

module _ (D : DashMap ℕ) {F Fut : Type 0} (T : Type 0) (poll : Fut → Polled Fut) where
  open D use {Map}

  -- What the thread sees once the executor has left the scheduler `s`.
  abbrev pub after : World Map F → Scheduler Map → World Map F
  after w s = record w { task_manager = some s.manager; channels = s.channels; aborts = s.aborts }

  -- The executor that `build` has started, when it is at its first `recv`.
  abbrev pub at_start : World Map F → ℕ → (ℕ → Cell Fut) → Running Map Fut
  at_start w h cells = record { sched = get_manager D w; cells = cells; panics = w.panics h }

  -- What happens once the task has been submitted.
  abbrev pub Completes :
      (n rounds : ℕ) → (ℕ → Cell Fut) → T → ℕ → SyncChannel T → Task → World Map F → Type 0
  Completes n rounds cells v h c t w =
      (s : Scheduler Map) × (run D poll (suc rounds) 0 (at_start w h cells)
        ≡ run D poll rounds 0
            (record { sched = s; cells = update cells t.future emptied; panics = w.panics h }))
      × Preserved D (suc n)
          (record { sched = s; running = update (update (λ e. none) 0 (some t)) 0 none })
      × Returns
          (λ (got, w').
            (got ≡ done v) × (w'.runtime ≡ w.runtime) × (w'.runtime_guard ≡ w.runtime_guard))
          (do c' ← settle c (some v); end_blocking (after w s) h c')
