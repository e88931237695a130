-- ===== src/Executor/Loop.antt =====
-- A round of `Executor::run` (src/executor.rs) as steps of the system of `Manager/System`.
use hooch.Base.{
  ℕ, suc, ◌≡◌, ◌<◌, refl, none, some, List, ◌∷◌, arith, done, update, Returns-value, ok,
}
use hooch.SyncChannel
use hooch.SyncChannel.{SyncChannel}
use hooch.DashMap.{DashMap}
use hooch.Task.{Task}
use hooch.Manager.{Scheduler, ExecutorTask, task, executor_ready}
use hooch.Manager.System.{System, receive, ready, Reach, here, later, Inv}
use hooch.Manager.Invariant.{received-Inv}
use hooch.Manager.Safety.{ready_ends}
use hooch.Executor.{Polled, Cell, Running, forward_task, run_task, run}

module _ {Fut : Type 0} (D : DashMap ℕ) (poll : Fut → Polled Fut) (n : ℕ) where
  open D use {Map}

  -- What is left after the `recv` of the first task in the channel of executor `e`.
  abbrev received : System Map → ℕ → Task → List ExecutorTask → System Map
  received s e t rest = record {
    sched = record (s.sched) {
      channels = update s.sched.channels e (record (s.sched.channels e) { queue = rest });
    };
    running = update s.running e (some t);
  }

  pub run_round :
      (rounds e : ℕ) (r : Running Map Fut) (t : Task) (c : SyncChannel ExecutorTask)
      (cell : Cell Fut) (panics : SyncChannel (Unit {0})) (s' : Scheduler Map)
      → SyncChannel.recv (r.sched.channels e) ≡ done (ok (task t), c)
      → forward_task poll (r.cells t.future) r.panics ≡ done (cell, panics)
      → executor_ready D (record (r.sched) { channels = update r.sched.channels e c }) e ≡ done s'
      → run D poll (suc rounds) e r
        ≡ run D poll rounds e
            (record { sched = s'; cells = update r.cells t.future cell; panics = panics })
  unfolding run run_task
  run_round rounds e r t c cell panics s' taken forwards returns =
      rw (taken, forwards, returns) refl

  pub round-Reach :
      (rounds : ℕ) (s : System Map) (cells : ℕ → Cell Fut) (panics : SyncChannel (Unit {0}))
      (ws : List Task) (is : List ℕ) (e : ℕ) (t : Task) (rest : List ExecutorTask) (cell : Cell Fut)
      (panics' : SyncChannel (Unit {0}))
      → Inv D n s ws is
      → e < n
      → s.running e ≡ none
      → (s.sched.channels e).queue ≡ task t ∷ rest
      → forward_task poll (cells t.future) panics ≡ done (cell, panics')
      → (s' : Scheduler Map) × (run D poll
            (suc rounds)
            e
            (record { sched = s.sched; cells = cells; panics = panics })
          ≡ run D poll rounds e
              (record { sched = s'; cells = update cells t.future cell; panics = panics' }))
        × Reach D n s (record { sched = s'; running = update (update s.running e (some t)) e none })
  unfolding SyncChannel.recv
  round-Reach rounds s cells panics ws is e t rest cell panics' v lt at queue forwards =
      let taken : SyncChannel.recv (s.sched.channels e)
          ≡ done (ok (task t), record (s.sched.channels e) { queue = rest }) =
        rw queue refl in
      let between : Inv D n (received s e t rest) ws is =
        received-Inv D n s ws is e t _ v lt at taken in
      let (s', returns, _) =
        Returns-value _ _
          (ready_ends D n (received s e t rest) ws is e t between lt (ground arith)) in
      (
        s',
        run_round rounds e (record { sched = s.sched; cells = cells; panics = panics }) t _ cell
            panics' s' taken forwards returns,
        later (later here (receive e t lt at taken)) (ready e t lt (ground arith) returns),
      )
