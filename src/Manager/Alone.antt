-- ===== src/Manager/Alone.antt =====
-- The accesses of a call of src/task/manager.rs that no other thread interrupts.
use hooch.Base.{
  ℕ, zero, suc, ◌≡◌, refl, true, false, Bool, Option, none, some, if◌then◌else◌, Exec, done,
  panicked, blocked, undefined, ◌>>=◌, Whenever,
}
use hooch.Ring
use hooch.Ring.{Ring}
use hooch.DashMap.{DashMap}
use hooch.Task.{Task, has_aborted}
use hooch.Manager.{Scheduler, with_tasks, wait_for_task, send_task, ready_loop, executor_ready}
use hooch.Manager.Halves.{ReadyPc, ready_access, ready_alone}

module _ (D : DashMap ℕ) where
  open D use {Map}

  -- The accesses of `executor_ready`, `k` at most, come to the end that `s'` is left at.
  abbrev Ends : ℕ → ℕ → ReadyPc → Scheduler Map → Scheduler Map → Type 0
  Ends k e pc s s' = ready_alone D k e pc s ≡ done (ReadyPc.returned, s')

  returned-Ends : (k e : ℕ) (s : Scheduler Map) → Ends k e ReadyPc.returned s s
  unfolding ready_alone ready_access
  returned-Ends zero e s = refl
  returned-Ends (suc k) e s = returned-Ends k e s

  -- The last access.
  last-Ends :
      (k e : ℕ) (m : Exec (Scheduler Map))
      → Whenever
          (λ s'.
            ((do s'' ← m; done (ReadyPc.returned, s'')) >>= λ (pc, s''). ready_alone D k e pc s'')
            ≡ done (ReadyPc.returned, s'))
          m
  last-Ends k e (done s) = returned-Ends k e s
  last-Ends k e panicked = tt
  last-Ends k e blocked = tt
  last-Ends k e undefined = tt

  -- A task has been taken out.
  chosen-Ends :
      (k e : ℕ) (s : Scheduler Map) (t : Task) (dead : Bool)
      → ((s' : Scheduler Map) → Whenever (Ends (suc k) e ReadyPc.asking s') (ready_loop D k s' e))
      → Whenever
          (Ends (suc k) e (if dead then ReadyPc.asking else ReadyPc.sending t) s)
          (elim dead [ true ↦ ready_loop D k s e | false ↦ send_task D s e t ])
  unfolding ready_alone ready_access
  chosen-Ends k e s t true again = again s
  chosen-Ends k e s t false again = last-Ends k e (send_task D s e t)

  taken-Ends :
      (k e : ℕ) (s : Scheduler Map) (m : Exec (Option Task × Ring Task))
      → ((s' : Scheduler Map) → Whenever (Ends (suc k) e ReadyPc.asking s') (ready_loop D k s' e))
      → Whenever
          (λ s'.
            ((do
              (next, ring) ← m
              done (
                elim next [
                  | none ↦ ReadyPc.parking
                  | some t ↦ if has_aborted s.aborts t then ReadyPc.asking else ReadyPc.sending t
                ],
                with_tasks s ring,
              ))
              >>= λ (pc, s''). ready_alone D (suc k) e pc s'')
            ≡ done (ReadyPc.returned, s'))
          (do
            (next, ring) ← m
            let s' = with_tasks s ring
            elim next [
              | none ↦ wait_for_task D s' e
              | some t ↦ elim (has_aborted s.aborts t) [
                | true ↦ ready_loop D k s' e
                | false ↦ send_task D s' e t
              ]
            ])
  unfolding ready_alone ready_access
  taken-Ends k e s (done (none, ring)) again = last-Ends k e (wait_for_task D (with_tasks s ring) e)
  taken-Ends k e s (done (some t, ring)) again =
      chosen-Ends k e (with_tasks s ring) t (has_aborted s.aborts t) again
  taken-Ends k e s panicked again = tt
  taken-Ends k e s blocked again = tt
  taken-Ends k e s undefined again = tt

  loop-Ends :
      (k e : ℕ) (s : Scheduler Map)
      → Whenever (Ends (suc k) e ReadyPc.asking s) (ready_loop D k s e)
  unfolding ready_loop ready_alone ready_access
  loop-Ends zero e s = tt
  loop-Ends (suc k) e s = taken-Ends k e s (Ring.pop s.manager.waiting_tasks) (loop-Ends k e)

  -- If the call returns, so do its accesses, with the same state.
  pub ready_alone-Ends :
      (e : ℕ) (s : Scheduler Map)
      → Whenever
          (Ends (suc (suc s.manager.waiting_tasks.count)) e ReadyPc.asking s)
          (executor_ready D s e)
  unfolding executor_ready
  ready_alone-Ends e s = loop-Ends (suc s.manager.waiting_tasks.count) e s
