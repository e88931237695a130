-- ===== src/Runtime/Threads.antt =====
-- The threads of the executors that `RuntimeBuilder::build` (src/runtime.rs) starts.
use hooch.Base.{ℕ, Bool, true, false, Option, none, some, if◌then◌else◌, Exec, done, ◌>>=◌, unwrap}
use hooch.SyncChannel
use hooch.SyncChannel.{SyncChannel}
use hooch.DashMap.{DashMap}
use hooch.Executor.{Polled, Running, Ended, returned, unwound, run}
use hooch.Runtime.{Runtime}

-- The thread's own cells RUNTIME_GUARD, TASK_MANAGER, HOOCH_POOL and RUNTIME. The manager and the pool
-- are shared, and stand here by their addresses.
pub record Locals : Type 0 where
  pub runtime_guard : Bool
  pub task_manager : Option ℕ
  pub hooch_pool : Option ℕ
  pub runtime : Option Runtime

-- Those of a new thread.
abbrev pub cold : Locals
cold = record { runtime_guard = false; task_manager = none; hooch_pool = none; runtime = none }

-- `OnceCell::get_or_init`, as far as the cell goes.
abbrev pub get_or_init : {A : Type 0} → Option A → A → Option A
get_or_init (some old) new = some old
get_or_init none new = some new

-- What `build` sends to a thread: the channel, once the value is in it.
unfoldable pub sent_to_thread : {A : Type 0} → A → Exec (SyncChannel A)
sent_to_thread value = do
  (res, channel) ← SyncChannel.send (SyncChannel.sync_channel 1) value
  _ ← unwrap res
  done channel

-- What the thread takes from its three channels, into its cells.
unfoldable pub take_cells :
    SyncChannel ℕ → SyncChannel ℕ → SyncChannel Runtime → Locals → Exec Locals
take_cells tm_rx hp_rx runtime_rx l = do
  (got_tm, _) ← SyncChannel.recv tm_rx
  tm ← unwrap got_tm
  (got_pool, _) ← SyncChannel.recv hp_rx
  hooch_pool ← unwrap got_pool
  (got_runtime, _) ← SyncChannel.recv runtime_rx
  rt ← unwrap got_runtime
  done (record l {
    task_manager = get_or_init l.task_manager tm;
    hooch_pool = get_or_init l.hooch_pool hooch_pool;
    runtime = get_or_init l.runtime rt;
  })

module _ {Fut : Type 0} (D : DashMap ℕ) (poll : Fut → Polled Fut) where
  open D use {Map}

  -- The closure that `catch_unwind` is given, with `set_runtime_guard` and `exit_runtime_guard`.
  unfoldable pub run_guarded : ℕ → ℕ → Locals → Running Map Fut → Exec (Locals × Ended Map Fut)
  run_guarded rounds id l s =
      let l' = record l { runtime_guard = true } in
      if l.runtime_guard then done (l, unwound s.panics) else (do
        ended ← run D poll rounds id s
        done (elim ended [
          | returned s' ↦ (record l' { runtime_guard = false }, returned s')
          | unwound panics ↦ (l', unwound panics)
        ]))

  -- What the thread does with the result of `catch_unwind`. After a panic, `unwound` has what is in the
  -- panic channel when the thread is over.
  unfoldable pub end_thread : Locals → Ended Map Fut → Exec (Locals × Ended Map Fut)
  end_thread l (returned s) = done (l, returned s)
  end_thread l (unwound panics) = do
    (_, panics') ← SyncChannel.send panics tt
    done (l, unwound panics')

  -- The body of the thread of executor `id`.
  unfoldable pub executor_thread :
      ℕ
      → ℕ
      → SyncChannel ℕ
      → SyncChannel ℕ
      → SyncChannel Runtime
      → Locals
      → Running Map Fut
      → Exec (Locals × Ended Map Fut)
  executor_thread rounds id tm_rx hp_rx runtime_rx l s = do
    l1 ← take_cells tm_rx hp_rx runtime_rx l
    (l2, ended) ← run_guarded rounds id l1 s
    end_thread l2 ended

  -- The thread with what `build` sends to it: the manager at `tm`, the pool at `hooch_pool` and the
  -- runtime `rt`.
  unfoldable pub started_thread :
      ℕ → ℕ → ℕ → ℕ → Runtime → Running Map Fut → Exec (Locals × Ended Map Fut)
  started_thread rounds id tm hooch_pool rt s = do
    tm_rx ← sent_to_thread tm
    hp_rx ← sent_to_thread hooch_pool
    runtime_rx ← sent_to_thread rt
    executor_thread rounds id tm_rx hp_rx runtime_rx cold s
