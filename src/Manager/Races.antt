-- ===== src/Manager/Races.antt =====
-- Interleaved calls of the methods of src/task/manager.rs.
use hooch.Base.{
  ℕ, ◌≡◌, refl, false, none, some, Bool-cases, inl, inr, Option, List, [], ◌∷◌, arith, Exec, done,
  panicked, blocked, undefined, ◌>>=◌, >>=-done,
}
use hooch.Ring
use hooch.Ring.Fifo.{pushed, pop-empty}
use hooch.DashMap.{DashMap}
use hooch.Task.{Task, has_aborted}
use hooch.Manager.{
  Scheduler, register_or_execute, wait_for_task, send_task, wait_for_executor, with_tasks,
  with_executors,
}
use hooch.Manager.Waits.{Waits, wait_for_task_lem, wait_for_executor_lem}
use hooch.Manager.Halves.{
  ReadyPc, SubmitPc, ready_access, submit_access, submit_alone, Pair, executor_moves,
  submitter_moves, Reach, here, later,
}

module _ (D : DashMap ℕ) where
  open D use {Map}

  asking_none :
      (s : Scheduler Map) (e : ℕ) (is : List ℕ)
      → Waits s.manager [] is
      → ready_access D e ReadyPc.asking s ≡ done (ReadyPc.parking, s)
  unfolding ready_access
  asking_none s e is w = rw (pop-empty s.manager.waiting_tasks w.tasks)

  seeking_none :
      (s : Scheduler Map) (t : Task) (ws : List Task)
      → Waits s.manager ws []
      → submit_access D (SubmitPc.seeking t) s ≡ done (SubmitPc.queueing t, s)
  unfolding submit_access
  seeking_none s t ws w = rw (pop-empty s.manager.waiting_executors w.idle)

  arriving_live :
      (s : Scheduler Map) (t : Task)
      → has_aborted s.aborts t ≡ false
      → submit_access D (SubmitPc.arriving t) s ≡ done (SubmitPc.seeking t, s)
  unfolding submit_access
  arriving_live s t live = rw live

  queueing_ends :
      (s s' : Scheduler Map) (t : Task)
      → wait_for_executor D s t ≡ done s'
      → submit_access D (SubmitPc.queueing t) s ≡ done (SubmitPc.returned, s')
  unfolding submit_access
  queueing_ends s s' t e = rw e

  parking_ends :
      (s s' : Scheduler Map) (e : ℕ)
      → wait_for_task D s e ≡ done s'
      → ready_access D e ReadyPc.parking s ≡ done (ReadyPc.returned, s')
  unfolding ready_access
  parking_ends s s' e h = rw h

  -- No task and no executor waits. A submission of a live task and an executor's request for work
  -- can interleave so that both return, but the task and the executor both wait, and no channel has
  -- changed: the task is not run though an executor is idle.
  pub lost_wakeup :
      (s : Scheduler Map) (e : ℕ) (t : Task)
      → Waits s.manager [] []
      → has_aborted s.aborts t ≡ false
      → let start : Pair D = record {
        sched = s;
        executor = ReadyPc.asking;
        submitter = SubmitPc.arriving t;
      } in
        (q : Pair D) × Reach D e start q
        × (q.executor ≡ ReadyPc.returned)
        × (q.submitter ≡ SubmitPc.returned)
        × Waits q.sched.manager (t ∷ []) (e ∷ [])
        × (q.sched.channels ≡ s.channels)
  lost_wakeup s e t w live =
      let s' = with_tasks s (pushed s.manager.waiting_tasks t) in
      let (queued, w') = wait_for_executor_lem D s [] [] t w (omega arith) in
      let (parked, w'') = wait_for_task_lem D s' (t ∷ []) [] e w' (omega arith) in
      (
        _,
        later
            (later
              (later
                (later (later here (submitter_moves (arriving_live s t live)))
                  (executor_moves (asking_none s e [] w)))
                (submitter_moves (seeking_none s t [] w)))
              (submitter_moves (queueing_ends s _ t queued)))
            (executor_moves (parking_ends s' _ e parked)),
        refl,
        refl,
        w'',
        refl,
      )

  -- What follows the `pop` of `waiting_executors`, as accesses and as a whole.
  abbrev to_pc : Scheduler Map → Task → Option ℕ × Ring.Ring ℕ → Exec (SubmitPc × Scheduler Map)
  to_pc s t x = done (
    elim x.0 [ none ↦ SubmitPc.queueing t | some e ↦ SubmitPc.sending e t ],
    with_executors s x.1,
  )

  abbrev to_end : Scheduler Map → Task → Option ℕ × Ring.Ring ℕ → Exec (Scheduler Map)
  to_end s t x = elim x.0 [
    | none ↦ wait_for_executor D (with_executors s x.1) t
    | some e ↦ send_task D (with_executors s x.1) e t
  ]

  after_pop :
      (s : Scheduler Map) (t : Task) (m : Exec (Option ℕ × Ring.Ring ℕ))
      → ((m >>= to_pc s t) >>= λ x. submit_alone D 1 x.0 x.1)
        ≡ ((m >>= to_end s t) >>= λ s'. done (SubmitPc.returned, s'))
  unfolding submit_alone submit_access
  after_pop s t (done (none, ring)) = >>=-done _
  after_pop s t (done (some e, ring)) = >>=-done _
  after_pop s t panicked = refl
  after_pop s t blocked = refl
  after_pop s t undefined = refl

  -- The accesses of a submission that no other thread interrupts, three at most, are
  -- `register_or_execute_non_blocking_task` as a whole, in whatever state the scheduler is.
  pub submit_alone-eq-register_or_execute :
      (s : Scheduler Map) (t : Task)
      → submit_alone D 3 (SubmitPc.arriving t) s
        ≡ (do s' ← register_or_execute D s t; done (SubmitPc.returned, s'))
  unfolding submit_alone submit_access register_or_execute
  submit_alone-eq-register_or_execute s t = elim (Bool-cases (has_aborted s.aborts t)) [
    | inl dead ↦ rw dead
    | inr live ↦ rw live (after_pop s t (Ring.pop s.manager.waiting_executors))
  ]
