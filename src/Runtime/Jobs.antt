-- ===== src/Runtime/Jobs.antt =====
-- src/runtime.rs, `Runtime::dispatch_job` and `Handle::spawn`.
use hooch.Base.{ℕ, Option, none, some, Exec, panicked}
use hooch.DashMap.{DashMap}
use hooch.Task.{Task}
use hooch.Channel.{Channel}
use hooch.Spawner.{JoinHandle, Spawning, BoxAny}
use hooch.Spawner
use hooch.Runtime.{Runtime}

module _ (D : DashMap ℕ) {T : Type 0} where
  open D use {Map}

  unfoldable pub dispatch_job :
      Runtime → ℕ → Spawning Map → Exec ((JoinHandle × Task × Channel (BoxAny T)) × Spawning Map)
  dispatch_job rt future sp = Spawner.spawn D future sp

  -- `runtime` is the thread's cell RUNTIME.
  unfoldable pub spawn :
      Option Runtime
      → ℕ
      → Spawning Map
      → Exec ((JoinHandle × Task × Channel (BoxAny T)) × Spawning Map)
  spawn runtime future sp = elim runtime [ none ↦ panicked | some rt ↦ dispatch_job rt future sp ]
