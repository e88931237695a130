-- ===== src/Tests/Runtimes.antt =====
-- The theorems about src/runtime.rs and src/executor.rs at concrete states of a thread.
use hooch.Base.{
  update, ok, inr, ℕ, zero, suc, ◌≡◌, refl, arith, Bool, true, false, some, none, Option, List, [],
  ◌∷◌, done, panicked, blocked, Returns, ◌>>=◌,
}
use hooch.SyncChannel
use hooch.SyncChannel.{SyncChannel}
use hooch.DashMap.{DashMap, function_map}
use hooch.Runtime.{
  Runtime, World, exit_runtime_guard, num_workers, finish_blocking, build, settle, end_blocking,
}
use hooch.Runtime.Guard.{Started, build_once}
use hooch.Runtime.Answers.{Answered}
use hooch.Runtime.Blocking.{Launched}
use hooch.MainAttr.{
  main, workers, TokenTree, ident, equals, lit_int, ItemFn, Program, hooch_main, generated_main,
}
use hooch.MainAttr.Runs.{main_runs}
use hooch.Manager
use hooch.Manager.{task}
use hooch.Executor.{Polled, completes, pends, unwinds, Cell, Running, unwound, forward_task}
use hooch.Executor.Panics.{Reports}
use hooch.Runtime.Threads.{started_thread}
use hooch.Runtime.Deaths.{inside, panics_end_executor}
use hooch.Tests.Systems.{first}

abbrev map : DashMap ℕ
map = function_map ℕ

-- A panic channel with the reports `queue` in it.
abbrev reports : List (Unit {0}) → SyncChannel (Unit {0})
reports queue = record { bound = 1; queue = queue; receiver = true; senders = 3 }

-- A thread whose cells hold `runtime` and nothing else.
abbrev thread : Bool → Option Runtime → World map.Map ℕ
thread guard runtime = record {
  runtime_guard = guard;
  runtime = runtime;
  hooch_pool = none;
  task_manager = none;
  channels = λ a. SyncChannel.sync_channel 0;
  pool_channels = λ a. SyncChannel.sync_channel 0;
  aborts = λ a. false;
  panics = λ a. reports (tt ∷ []);
  next_panic = 4;
  next_manager = 0;
  task_tag_num = 0;
  next_abort = 0;
}

abbrev three_workers : Runtime
three_workers = record { handles = 3; runtime_handle = 2 }

build_once_example :
    Returns
      (λ (h, w').
        Started map 2 (thread false none) h w'
        × (build map 8 w' ≡ panicked)
        × Returns
            (λ (h', w'').
              (h' ≡ h)
              × (num_workers w'' ≡ done 2)
              × (w''.channels ≡ w'.channels)
              × (w''.task_manager ≡ w'.task_manager))
            (build map 8 (exit_runtime_guard w')))
      (build map 2 (thread false none))
build_once_example = build_once map 2 8 (thread false none) refl refl refl (omega arith)

-- `#[hooch_main(workers = 2)] async fn main() { ... }`
abbrev two_asked : List TokenTree
two_asked = ident workers ∷ equals ∷ lit_int 2 ∷ []

abbrev async_main : ItemFn
async_main = record { name = main; is_async = true }

main_runs_example :
    (p : Program) × (hooch_main two_asked async_main ≡ ok p)
    × Returns
        (λ (h, c, t, w2).
          Launched map 2 c t w2
          × Returns
              (λ (got, w). Answered (some 80) (thread true (some three_workers)) h got w)
              (do c' ← settle c (some 80); end_blocking (thread true (some three_workers)) h c'))
        (generated_main map ℕ p 70 (thread false none))
main_runs_example =
    main_runs map ℕ two_asked async_main 2 70 (some 80) (thread false none)
      (thread true (some three_workers)) (inr (refl, omega arith)) refl refl (omega arith) refl refl
      refl

-- A future is the number of polls after which it panics.
abbrev fuse : ℕ → Polled ℕ
fuse zero = unwinds 0
fuse (suc n) = pends n

abbrev cell : ℕ → Cell ℕ
cell f = record { future = some f; poisoned = false }

-- Executor 0 has a task in its channel whose future has panicked, and the reports `queue` are there.
abbrev poisoned : List (Unit {0}) → Running map.Map ℕ
poisoned queue = record {
  sched = record {
    manager = Manager.new map 0;
    channels = λ a. record (SyncChannel.sync_channel 10000) { queue = task first ∷ [] };
    aborts = λ a. false;
  };
  cells = λ a. record { future = some 0; poisoned = true };
  panics = reports queue;
}

panics_end_executor_example :
    let (got, w') =
      finish_blocking
        (record (thread true (some three_workers)) {
          panics = update (thread true (some three_workers)).panics 2 (reports (tt ∷ []));
        })
        2
        (let res : ℕ = 80 in ok res) in
    (forward_task fuse (cell 0) (reports [])
      ≡ done (record { future = some 0; poisoned = true }, reports (tt ∷ [])))
    × (forward_task fuse (cell 0) (reports (tt ∷ [])) ≡ blocked)
    × (started_thread map fuse 1 0 5 6 three_workers (poisoned (tt ∷ [])) ≡ blocked)
    × (got ≡ panicked)
    × Reports (w'.panics 2) 0
    × ((c : SyncChannel (Unit {0})) × (forward_task fuse (cell 0) (w'.panics 2)
          ≡ done (record { future = some 0; poisoned = true }, c))
        × Reports c 1)
    × ((c : SyncChannel (Unit {0})) × (started_thread map fuse 1 0 5 6 three_workers
            (record (poisoned []) { panics = w'.panics 2 })
          ≡ done (inside 5 6 three_workers, unwound c))
        × Reports c 1)
unfolding SyncChannel.sync_channel
panics_end_executor_example =
    panics_end_executor map fuse 0 0 5 6 2 three_workers 0 0 0 0 (reports []) (poisoned []) first []
      (thread true (some three_workers)) 80 refl refl
      (record { bound = refl; receiver = refl; told = refl }) refl refl

-- A future that is ready at its first poll, at address 70.
abbrev ready_at_once : ℕ → Polled ℕ
ready_at_once f = completes
