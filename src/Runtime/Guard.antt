-- ===== src/Runtime/Guard.antt =====
-- When `RuntimeBuilder::build` (src/runtime.rs) makes a runtime, and which.
use hooch.Base.{
  ℕ, ◌≤◌, ◌≡◌, refl, true, false, none, some, [], arith, done, panicked, Returns, Returns-value,
  Returns-map,
}
use hooch.SyncChannel
use hooch.SyncChannel.{SyncChannel, try_recv-some, try_recv-none}
use hooch.DashMap.{DashMap}
use hooch.Manager
use hooch.Manager.{Scheduler, waiting_bound}
use hooch.Manager.System.{Inv}
use hooch.Runtime.{
  Runtime, World, register_workers, set_runtime_guard, exit_runtime_guard, handle, num_workers,
  init_pool, get_manager, start_runtime, build,
}
use hooch.Runtime.Workers.{upto, at_rest, register_workers-Inv}

module _ (D : DashMap ℕ) {F : Type 0} where
  open D use {Map}

  -- What a first build leaves in the thread's cells.
  pub record Started (workers : ℕ) (w : World Map F) (h : ℕ) (w' : World Map F) : Type 0 where
    pub guarded : w'.runtime_guard ≡ true
    pub own_channel : h ≡ w.next_panic
    pub unbroken : w'.panics h ≡ SyncChannel.sync_channel 1
    pub workers_kept : w'.runtime ≡ some (record { handles = workers; runtime_handle = h })
    pub scheduled : Inv D workers (at_rest D (get_manager D w')) [] (upto workers)

  built :
      (workers : ℕ) (w : World Map F) (s : Scheduler Map)
      → w.runtime_guard ≡ false
      → w.runtime ≡ none
      → w.task_manager ≡ none
      → register_workers D workers 0 (record {
        manager = Manager.new D w.next_manager;
        channels = w.channels;
        aborts = w.aborts;
      })
        ≡ done s
      → Inv D workers (at_rest D s) [] (upto workers)
      → Returns (λ (h, w'). Started workers w h w') (build D workers w)
  unfolding build start_runtime set_runtime_guard handle get_manager init_pool
  built workers w s free cold unmanaged registers v =
      rw (free, cold, unmanaged, registers)
        (record {
          guarded = refl;
          own_channel = refl;
          unbroken = ground arith;
          workers_kept = refl;
          scheduled = record {
            few = v.few;
            waits = v.waits;
            registered = v.registered;
            receivers = v.receivers;
            bounds = v.bounds;
            below = v.below;
            one_place = v.one_place;
            conserving = v.conserving;
          };
        })

  pub build-Started :
      (workers : ℕ) (w : World Map F)
      → w.runtime_guard ≡ false
      → w.runtime ≡ none
      → w.task_manager ≡ none
      → workers ≤ waiting_bound
      → Returns (λ (h, w'). Started workers w h w') (build D workers w)
  build-Started workers w free cold unmanaged few =
      let (s, registers, v) =
        Returns-value (λ s. Inv D workers (at_rest D s) [] (upto workers)) _
          (register_workers-Inv D workers
            (record {
              manager = Manager.new D w.next_manager;
              channels = w.channels;
              aborts = w.aborts;
            })
            w.next_manager few refl) in
      built workers w s free cold unmanaged registers v

  build_again :
      (workers : ℕ) (w : World Map F) (rt : Runtime)
      → w.runtime_guard ≡ true
      → w.runtime ≡ some rt
      → (build D workers w ≡ panicked)
        × Returns
            (λ (h, w').
              (h ≡ rt.runtime_handle)
              × (num_workers w' ≡ done rt.handles)
              × (w'.channels ≡ w.channels)
              × (w'.task_manager ≡ w.task_manager))
            (build D workers (exit_runtime_guard w))
  unfolding build set_runtime_guard handle num_workers exit_runtime_guard
  build_again workers w rt guarded there =
      (rw guarded refl, rw there (rw there (refl, refl, refl, refl)))

  -- In a thread that has no runtime, no manager and no guard, a build with at most 128000 workers
  -- returns. The guard is set, the handle is that of a fresh channel for panics, the runtime has as
  -- many workers as were asked for, and the scheduler satisfies its invariant with all executors
  -- waiting in order and no task. Another build, with whatever number of workers, panics. Once the
  -- guard is reset it returns, but with the handle and the workers of the first build, and the
  -- channels and the manager are as they were.
  pub build_once :
      (workers again : ℕ) (w : World Map F)
      → w.runtime_guard ≡ false
      → w.runtime ≡ none
      → w.task_manager ≡ none
      → workers ≤ waiting_bound
      → Returns
          (λ (h, w').
            Started workers w h w'
            × (build D again w' ≡ panicked)
            × Returns
                (λ (h', w'').
                  (h' ≡ h)
                  × (num_workers w'' ≡ done workers)
                  × (w''.channels ≡ w'.channels)
                  × (w''.task_manager ≡ w'.task_manager))
                (build D again (exit_runtime_guard w')))
          (build D workers w)
  build_once workers again w free cold unmanaged few =
      Returns-map _ _ (build D workers w) (build-Started workers w free cold unmanaged few)
        (λ (h, w') _ st.
          let (panics, returns) =
            build_again again w' (record { handles = workers; runtime_handle = h }) st.guarded
              st.workers_kept in
          (st, panics, returns))
