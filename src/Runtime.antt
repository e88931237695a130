-- ===== src/Runtime.antt =====
-- src/runtime.rs, `RuntimeBuilder`, `Runtime` and `Handle`, and `new_executor_spawner` of
-- src/spawner.rs.
pub mod Workers
pub mod Guard
pub mod Answers
pub mod Blocking
pub mod Jobs
pub mod Builder
pub mod Threads
pub mod Deaths
pub mod Whole
pub mod Delivery
pub mod Stored
pub mod Waking
pub mod Resumed
pub mod Delivered
use hooch.Base.{
  ℕ, zero, suc, ◌+◌, Bool, true, false, Option, none, some, if◌then◌else◌, update, Exec, done,
  panicked, ◌>>=◌, Result, ok, err,
}
use hooch.SyncChannel
use hooch.SyncChannel.{SyncChannel, RecvError, recv_error}
use hooch.DashMap.{DashMap}
use hooch.Task.{Task, generate_tag}
use hooch.Manager
use hooch.Manager.{TaskManager, Scheduler, ExecutorTask, register_executor, register_or_execute}
use hooch.Pool
use hooch.Pool.{HoochPool}

-- `handles` is the number of its worker threads: each handle is there, as the `take` in `drop` is
-- commented out. `runtime_handle` is the address of the channel behind `panic_rx`.
pub record Runtime : Type 0 where
  pub handles : ℕ
  pub runtime_handle : ℕ

-- What the thread that builds a runtime reaches: its cells RUNTIME_GUARD, RUNTIME, HOOCH_POOL and
-- TASK_MANAGER, and what is behind the pointers in them. `next_panic` is the address of the next
-- channel for panics, `next_manager` the identifier of the next manager, `task_tag_num` the counter
-- of the task tags, and `next_abort` the next address for an abort flag.
pub record World (M F : Type 0) : Type 0 where
  pub runtime_guard : Bool
  pub runtime : Option Runtime
  pub hooch_pool : Option HoochPool
  pub task_manager : Option (TaskManager M)
  pub channels : ℕ → SyncChannel ExecutorTask
  pub pool_channels : ℕ → SyncChannel F
  pub aborts : ℕ → Bool
  pub panics : ℕ → SyncChannel (Unit {0})
  pub next_panic : ℕ
  pub next_manager : ℕ
  pub task_tag_num : ℕ
  pub next_abort : ℕ

-- MAX_QUEUED_TASKS of `new_executor_spawner`.
abbrev pub max_queued_tasks : ℕ
max_queued_tasks = 10000

module _ (D : DashMap ℕ) where
  open D use {Map}

  -- `new_executor_spawner` makes the channel of executor `i`, at address `i`.
  unfoldable pub new_executor : Scheduler Map → ℕ → Scheduler Map
  new_executor s i = record s {
    channels = update s.channels i (SyncChannel.sync_channel max_queued_tasks);
  }

  -- The `for` loop of `build` from worker `i` on, as far as the task manager sees it.
  unfoldable pub register_workers : ℕ → ℕ → Scheduler Map → Exec (Scheduler Map)
  register_workers zero i s = done s
  register_workers (suc left) i s = do
    s' ← register_executor D (new_executor s i) i i
    register_workers left (i + 1) s'

module _ {M F : Type 0} where
  -- `set_runtime_guard` and `exit_runtime_guard`.
  unfoldable pub set_runtime_guard : World M F → Exec (World M F)
  set_runtime_guard w =
      if w.runtime_guard then panicked else done (record w { runtime_guard = true })

  unfoldable pub exit_runtime_guard : World M F → World M F
  exit_runtime_guard w = record w { runtime_guard = false }

  -- `Drop for Runtime`, as far as the guard goes.
  unfoldable pub drop : World M F → World M F
  drop w = exit_runtime_guard w

  -- `Runtime::handle`, the address of the channel of a `Handle`.
  unfoldable pub handle : World M F → Exec ℕ
  handle w = elim w.runtime [ none ↦ panicked | some rt ↦ done rt.runtime_handle ]

  -- `Handle::num_workers`.
  unfoldable pub num_workers : World M F → Exec ℕ
  num_workers w = elim w.runtime [ none ↦ panicked | some rt ↦ done rt.handles ]

  -- `HoochPool::init` on the thread's cell.
  unfoldable pub init_pool : ℕ → World M F → World M F
  init_pool threads w =
      let made = Pool.init threads w.pool_channels in
      record w {
        hooch_pool = some (elim w.hooch_pool [ some pool ↦ pool | none ↦ made.pool ]);
        pool_channels = elim w.hooch_pool [ some pool ↦ w.pool_channels | none ↦ made.channels ];
      }

  -- `Handle::run_blocking` once `rx.recv()` has ended with `got`. The state is kept as well when the
  -- call panics, since the caller may catch the panic.
  unfoldable pub finish_blocking :
      {T : Type 0} → World M F → ℕ → Result T RecvError → Exec T × World M F
  finish_blocking w panic_rx (err e) = (panicked, w)
  finish_blocking w panic_rx (ok res) =
      let (got, channel) = SyncChannel.try_recv (w.panics panic_rx) in
      let w' = record w { panics = update w.panics panic_rx channel } in
      elim got [ ok _ ↦ (panicked, exit_runtime_guard w') | err e ↦ (done res, w') ]

module _ (D : DashMap ℕ) {F : Type 0} where
  open D use {Map}

  -- `TaskManager::get` on the thread's cell, with what the manager reaches.
  unfoldable pub get_manager : World Map F → Scheduler Map
  get_manager w = record {
    manager = elim w.task_manager [ some tm ↦ tm | none ↦ Manager.new D w.next_manager ];
    channels = w.channels;
    aborts = w.aborts;
  }

  -- The initialiser of the cell RUNTIME. The worker threads take what they are sent and run.
  unfoldable pub start_runtime : ℕ → ℕ → World Map F → Exec (World Map F)
  start_runtime workers panic_rx w =
      let w' = init_pool 1 w in
      do
        s ← register_workers D workers 0 (get_manager w')
        done (record w' {
          runtime = some (record { handles = workers; runtime_handle = panic_rx });
          task_manager = some s.manager;
          channels = s.channels;
          next_manager = elim w'.task_manager [
            | some tm ↦ w'.next_manager
            | none ↦ w'.next_manager + 1
          ];
        })

  -- `RuntimeBuilder::build`. The panic channel is made whether or not there is a runtime.
  unfoldable pub build : ℕ → World Map F → Exec (ℕ × World Map F)
  build workers w = do
    w1 ← set_runtime_guard w
    let panic_rx = w1.next_panic
    let w2 = record w1 {
      panics = update w1.panics panic_rx (SyncChannel.sync_channel 1);
      next_panic = panic_rx + 1;
    }
    w3 ← elim w2.runtime [ some rt ↦ done w2 | none ↦ start_runtime workers panic_rx w2 ]
    h ← handle w3
    done (h, w3)

  -- `run_blocking` as far as the call of `recv`: the channel that its wrapped future sends into, the
  -- task, with its future at the address `future`, and the submission.
  unfoldable pub start_blocking :
      {T : Type 0} → ℕ → World Map F → Exec (SyncChannel T × Task × World Map F)
  start_blocking future w = elim w.runtime [
    | none ↦ panicked
    | some rt ↦
        let (tag, task_tag_num) = generate_tag w.task_tag_num in
        let t : Task = record { future = future; task_tag = tag; abort = w.next_abort } in
        let s = get_manager w in
        do
          s' ← register_or_execute D (record s { aborts = update s.aborts w.next_abort false }) t
          done (
            SyncChannel.sync_channel 1,
            t,
            record w {
              task_manager = some s'.manager;
              channels = s'.channels;
              aborts = s'.aborts;
              next_manager = elim w.task_manager [
                | some tm ↦ w.next_manager
                | none ↦ w.next_manager + 1
              ];
              task_tag_num = task_tag_num;
              next_abort = w.next_abort + 1;
            },
          )
  ]

module _ {T : Type 0} where
  -- The end of the wrapped future, which drops its sender: it has sent the value of the future, or it
  -- is dropped before the future has one.
  unfoldable pub settle : SyncChannel T → Option T → Exec (SyncChannel T)
  settle c none = done (record c { senders = 0 })
  settle c (some res) = do (_, c') ← SyncChannel.send c res; done (record c' { senders = 0 })

  -- `run_blocking` from the call of `recv` on, for the handle's channel at `panic_rx`.
  unfoldable pub end_blocking :
      {M F : Type 0} → World M F → ℕ → SyncChannel T → Exec (Exec T × World M F)
  end_blocking w panic_rx c = do
    (got, _) ← SyncChannel.recv c
    done (finish_blocking w panic_rx got)
