-- ===== src/Manager/Flags.antt =====
-- An abort flag of a task that is set stays set, whatever src/task/manager.rs does.
use hooch.Base.{
  ℕ, zero, suc, ◌≡◌, refl, subst, Bool, true, false, Bool-cases, inl, inr, none, some, arith, Exec,
  unwrap, unwrap_some, Whenever, Whenever-done, Whenever-then, Option,
}
use hooch.Ring
use hooch.SyncChannel
use hooch.DashMap.{DashMap}
use hooch.Task.{Task, has_aborted}
use hooch.Manager.{
  Scheduler, task, with_tasks, with_executors, wait_for_task, wait_for_executor, send_task,
  ready_loop, executor_ready, register_or_execute,
}
use hooch.Manager.System.{System, Step, submit, receive, ready, abort}

module _ (D : DashMap ℕ) where
  open D use {Map, get}

  -- If the call returns, the flags are those of `s`.
  abbrev pub SameFlags : Scheduler Map → Exec (Scheduler Map) → Type 0
  SameFlags s m = Whenever (λ s'. s'.aborts ≡ s.aborts) m

  pub send_task-SameFlags : (s : Scheduler Map) (e : ℕ) (t : Task) → SameFlags s (send_task D s e t)
  unfolding send_task
  send_task-SameFlags s e t = Whenever-then _ (unwrap_some (get e s.manager.executors)) _ (λ a.
      Whenever-then _ (SyncChannel.send (s.channels a) (task t)) _
        (λ sent. Whenever-then _ (unwrap sent.0) _ (λ _. refl)))

  pub wait_for_task-SameFlags : (s : Scheduler Map) (e : ℕ) → SameFlags s (wait_for_task D s e)
  unfolding wait_for_task
  wait_for_task-SameFlags s e =
      Whenever-then _ (Ring.push s.manager.waiting_executors e) _
        (λ pushed. Whenever-then _ (unwrap pushed.0) _ (λ _. refl))

  wait_for_executor-SameFlags :
      (s : Scheduler Map) (t : Task) → SameFlags s (wait_for_executor D s t)
  unfolding wait_for_executor
  wait_for_executor-SameFlags s t =
      Whenever-then _ (Ring.push s.manager.waiting_tasks t) _
        (λ pushed. Whenever-then _ (unwrap pushed.0) _ (λ _. refl))

  sought-SameFlags :
      (s : Scheduler Map) (t : Task) (exec : Option ℕ)
      → SameFlags s (elim exec [ none ↦ wait_for_executor D s t | some e ↦ send_task D s e t ])
  sought-SameFlags s t none = wait_for_executor-SameFlags s t
  sought-SameFlags s t (some e) = send_task-SameFlags s e t

  pub submit-SameFlags : (s : Scheduler Map) (t : Task) → SameFlags s (register_or_execute D s t)
  unfolding register_or_execute
  submit-SameFlags s t = elim (Bool-cases (has_aborted s.aborts t)) [
    | inl dead ↦ rw dead refl
    | inr live ↦ rw live (
        Whenever-then _ (Ring.pop s.manager.waiting_executors) _
          (λ popped. sought-SameFlags (with_executors s popped.1) t popped.0))
  ]

  -- The end of a round, where `again` is the next one.
  round-SameFlags :
      (s : Scheduler Map) (e : ℕ) (t : Task) (again : Exec (Scheduler Map)) (dead : Bool)
      → SameFlags s again
      → SameFlags s (elim dead [ true ↦ again | false ↦ send_task D s e t ])
  round-SameFlags s e t again true h = h
  round-SameFlags s e t again false h = send_task-SameFlags s e t

  taken-SameFlags :
      (s : Scheduler Map) (e : ℕ) (again : Exec (Scheduler Map)) (next : Option Task)
      → SameFlags s again
      → SameFlags s (elim next [
        | none ↦ wait_for_task D s e
        | some t ↦ elim (has_aborted s.aborts t) [ true ↦ again | false ↦ send_task D s e t ]
      ])
  taken-SameFlags s e again none h = wait_for_task-SameFlags s e
  taken-SameFlags s e again (some t) h = round-SameFlags s e t again (has_aborted s.aborts t) h

  loop-SameFlags : (rounds : ℕ) (s : Scheduler Map) (e : ℕ) → SameFlags s (ready_loop D rounds s e)
  unfolding ready_loop
  loop-SameFlags zero s e = tt
  loop-SameFlags (suc rounds) s e = Whenever-then _ (Ring.pop s.manager.waiting_tasks) _ (λ popped.
      taken-SameFlags (with_tasks s popped.1) e _ popped.0
        (loop-SameFlags rounds (with_tasks s popped.1) e))

  pub ready-SameFlags : (s : Scheduler Map) (e : ℕ) → SameFlags s (executor_ready D s e)
  unfolding executor_ready
  ready-SameFlags s e = loop-SameFlags _ s e

module _ (D : DashMap ℕ) (n : ℕ) where
  open D use {Map}

  pub Step-clear :
      {s u : System Map} (a : ℕ)
      → Step D n s u
      → u.sched.aborts a ≡ false
      → s.sched.aborts a ≡ false
  Step-clear {s} a (submit t {s'} returns) clear =
      let same : s'.aborts ≡ s.sched.aborts =
        Whenever-done _ (register_or_execute D s.sched t) returns (submit-SameFlags D s.sched t) in
      subst (λ flags. flags a ≡ false) same clear
  Step-clear a (receive e t lt at got) clear = clear
  Step-clear {s} a (ready e t {s'} lt at returns) clear =
      let same : s'.aborts ≡ s.sched.aborts =
        Whenever-done _ (executor_ready D s.sched e) returns (ready-SameFlags D s.sched e) in
      subst (λ flags. flags a ≡ false) same clear
  Step-clear {s} a (abort b) clear = ground (arith, clear)
