-- ===== src/Runtime/Deaths.antt =====
-- How the thread of an executor (src/runtime.rs) ends when a task panics (src/executor.rs).
use hooch.Base.{
  ◌==◌, ℕ, suc, ◌≡◌, ◌∙◌, refl, true, false, some, List, [], ◌∷◌, arith, done, panicked, blocked,
  update, ok, ap,
}
use hooch.SyncChannel
use hooch.SyncChannel.{SyncChannel}
use hooch.DashMap.{DashMap}
use hooch.Task.{Task}
use hooch.Manager.{ExecutorTask, task}
use hooch.Executor.{Polled, unwinds, Cell, Running, unwound, forward_task, run_task, run}
use hooch.Executor.Panics.{
  Reports, with_report, with_report-Reports, report-room, report-full, forward_task-unwinds,
  forward_task-waits,
}
use hooch.Runtime.Answers.{finish_told}
use hooch.Runtime.{Runtime, World, exit_runtime_guard, finish_blocking}
use hooch.Runtime.Threads.{
  Locals, sent_to_thread, take_cells, run_guarded, executor_thread, end_thread, started_thread,
}

-- The cells of a thread that has taken what `build` sends to it, and runs.
abbrev pub inside : ℕ → ℕ → Runtime → Locals
inside tm hooch_pool rt = record {
  runtime_guard = true;
  task_manager = some tm;
  hooch_pool = some hooch_pool;
  runtime = some rt;
}

module _ {Fut : Type 0} (D : DashMap ℕ) (poll : Fut → Polled Fut) where
  open D use {Map}

  -- A thread that has taken its cells runs with them.
  started-eq-ended :
      (rounds e tm hooch_pool : ℕ) (rt : Runtime) (s : Running Map Fut)
      (panics : SyncChannel (Unit {0}))
      → run D poll rounds e s ≡ done (unwound panics)
      → started_thread D poll rounds e tm hooch_pool rt s
        ≡ end_thread D poll (inside tm hooch_pool rt) (unwound panics)
  unfolding started_thread executor_thread run_guarded take_cells sent_to_thread SyncChannel.send
      SyncChannel.recv SyncChannel.sync_channel
  started-eq-ended rounds e tm hooch_pool rt s panics over = rw over refl

  poisoned_unwinds :
      (rounds e : ℕ) (s : Running Map Fut) (t : Task) (rest : List ExecutorTask)
      → (s.sched.channels e).queue ≡ task t ∷ rest
      → (s.cells t.future).poisoned ≡ true
      → run D poll (suc rounds) e s ≡ done (unwound s.panics)
  unfolding run run_task forward_task SyncChannel.recv
  poisoned_unwinds rounds e s t rest at bad = rw (at, bad) refl

  end_thread-full :
      (l : Locals) (c : SyncChannel (Unit {0}))
      → Reports c 1
      → end_thread D poll l (unwound c) ≡ blocked
  unfolding end_thread
  end_thread-full l c r = rw (report-full c r) refl

  end_thread-room :
      (l : Locals) (c : SyncChannel (Unit {0}))
      → Reports c 0
      → (c' : SyncChannel (Unit {0})) × (end_thread D poll l (unwound c) ≡ done (l, unwound c'))
        × Reports c' 1
  unfolding end_thread
  end_thread-room l c r = (with_report c, rw (report-room c r) refl, with_report-Reports c r)

  poisoned-eq-ended :
      (rounds e tm hooch_pool : ℕ) (rt : Runtime) (s : Running Map Fut) (t : Task)
      (rest : List ExecutorTask)
      → (s.sched.channels e).queue ≡ task t ∷ rest
      → (s.cells t.future).poisoned ≡ true
      → started_thread D poll (suc rounds) e tm hooch_pool rt s
        ≡ end_thread D poll (inside tm hooch_pool rt) (unwound s.panics)
  poisoned-eq-ended rounds e tm hooch_pool rt s t rest at bad =
      started-eq-ended (suc rounds) e tm hooch_pool rt s s.panics
        (poisoned_unwinds rounds e s t rest at bad)

module _ {M F T : Type 0} where
  -- `run_blocking` takes the report and panics.
  report_taken :
      (w : World M F) (h : ℕ) (res : T) (c : SyncChannel (Unit {0})) (q : List (Unit {0}))
      → c.queue ≡ q
      → w.panics h ≡ c
      → Reports c 1
      → let (got, w') = finish_blocking w h (ok res) in (got ≡ panicked) × Reports (w'.panics h) 0
  unfolding exit_runtime_guard
  report_taken w h res c [] at there r = ground (arith, r.told, at)
  report_taken w h res c (u ∷ rest) at there r =
      let same : (h == h) ≡ true = ground arith in
      let queued = ap (λ (x : SyncChannel (Unit {0})). x.queue) there ∙ at in
      rw (finish_told w h res rest queued) (
        refl,
        rw (same, there)
            (record { bound = r.bound; receiver = r.receiver; told = ground (arith, r.told, at) }),
      )

module _ {Fut M F T : Type 0} (D : DashMap ℕ) (poll : Fut → Polled Fut) where
  open D use {Map}

  -- Take a panic channel as `build` makes it, with no report in it. `forward_task` reports a future
  -- that panics and returns, but the lock of the task is poisoned then. While that report is there,
  -- the send of a second report waits: that of `forward_task` on another future that panics, and
  -- the last send of the thread of an executor, started as `build` starts it, that receives the
  -- task with the poisoned lock. A `run_blocking` whose future ends with a value panics then, and
  -- takes the report. With what it leaves in the panic channel, both sends go through, whichever
  -- comes first: `forward_task` returns, with its lock poisoned, and the thread of the executor
  -- comes to its end; its cells hold the manager, the pool and the runtime that `build` has sent,
  -- and its guard is still set. Either leaves one report again.
  pub panics_end_executor :
      (rounds e tm hooch_pool h : ℕ) (rt : Runtime) (a b a' b' : Fut) (c : SyncChannel (Unit {0}))
      (s : Running Map Fut) (t : Task) (rest : List ExecutorTask) (w : World M F) (res : T)
      → poll a ≡ unwinds a'
      → poll b ≡ unwinds b'
      → Reports c 0
      → (s.sched.channels e).queue ≡ task t ∷ rest
      → s.cells t.future ≡ record { future = some a'; poisoned = true }
      → let cell : Fut → Cell Fut = λ f. record { future = some f; poisoned = false } in
        let told = with_report c in
        let (got, w') = finish_blocking (record w { panics = update w.panics h told }) h (ok res) in
        (forward_task poll (cell a) c ≡ done (record { future = some a'; poisoned = true }, told))
        × (forward_task poll (cell b) told ≡ blocked)
        × (started_thread D poll (suc rounds) e tm hooch_pool rt (record s { panics = told })
            ≡ blocked)
        × (got ≡ panicked)
        × Reports (w'.panics h) 0
        × ((c' : SyncChannel (Unit {0})) × (forward_task poll (cell b) (w'.panics h)
              ≡ done (record { future = some b'; poisoned = true }, c'))
            × Reports c' 1)
        × ((c' : SyncChannel (Unit {0})) × (started_thread D poll
                (suc rounds)
                e
                tm
                hooch_pool
                rt
                (record s { panics = w'.panics h })
              ≡ done (inside tm hooch_pool rt, unwound c'))
            × Reports c' 1)
  panics_end_executor rounds e tm hooch_pool h rt a b a' b' c s t rest w res bad worse r at
        poisoned =
      let l = inside tm hooch_pool rt in
      let told = with_report c in
      let told-Reports = with_report-Reports c r in
      let bad_cell : (s.cells t.future).poisoned ≡ true =
        ap (λ (x : Cell Fut). x.poisoned) poisoned in
      let (panics, taken) =
        report_taken (record w { panics = update w.panics h told }) h res told _ refl
          (let same : (h == h) ≡ true = ground arith in rw same refl) told-Reports in
      let (got, w') = finish_blocking (record w { panics = update w.panics h told }) h (ok res) in
      let free = w'.panics h in
      let (c', over, reported) = end_thread-room D poll l free taken in
      (
        forward_task-unwinds poll _ a a' c refl refl bad r,
        forward_task-waits poll _ b b' told refl refl worse told-Reports,
        poisoned-eq-ended D poll rounds e tm hooch_pool rt (record s { panics = told }) t rest at
              bad_cell
            ∙ end_thread-full D poll l told told-Reports,
        panics,
        taken,
        (
          with_report free,
          forward_task-unwinds poll _ b b' free refl refl worse taken,
          with_report-Reports free taken,
        ),
        (
          c',
          poisoned-eq-ended D poll rounds e tm hooch_pool rt (record s { panics = free }) t rest at
                bad_cell
              ∙ over,
          reported,
        ),
      )
