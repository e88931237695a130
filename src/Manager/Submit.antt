-- ===== src/Manager/Submit.antt =====
-- `TaskManager::register_or_execute_non_blocking_task` of src/task/manager.rs.
use hooch.Base.{
  ℕ, ◌≡◌, ◌<◌, refl, ◌∙◌, true, false, List, [], ◌∷◌, ◌++◌, length, arith, update, done, panicked,
  Returns,
}
use hooch.Ring.Fifo.{popped, capacity-popped, push-full, pop-empty, pop-eq-popped, popped-Holds}
use hooch.DashMap.{DashMap}
use hooch.Task.{Task, has_aborted}
use hooch.Manager.{Scheduler, waiting_bound, wait_for_executor, register_or_execute, with_executors}
use hooch.Manager.Waits.{Waits, with_task, IsOpen, Keeps, send_task_lem, wait_for_executor_lem}

module _ (D : DashMap ℕ) where
  open D use {Map}

  pub submit_dead :
      (s : Scheduler Map) (t : Task)
      → has_aborted s.aborts t ≡ true
      → register_or_execute D s t ≡ done s
  unfolding register_or_execute
  submit_dead s t dead = rw dead

  pub submit-Waits :
      (s : Scheduler Map) (ws : List Task) (t : Task)
      → has_aborted s.aborts t ≡ false
      → Waits s.manager ws []
      → length ws < waiting_bound
      → Returns
          (λ s'. Keeps D s s' × Waits s'.manager (ws ++ t ∷ []) [] × (s'.channels ≡ s.channels))
          (register_or_execute D s t)
  unfolding register_or_execute
  submit-Waits s ws t live w room =
      let (returns, waits) = wait_for_executor_lem D s ws [] t w room in
      rw live
        (rw (pop-empty s.manager.waiting_executors w.idle) (rw returns ((refl, refl), waits, refl)))

  pub submit_overflows :
      (s : Scheduler Map) (ws : List Task) (t : Task)
      → has_aborted s.aborts t ≡ false
      → Waits s.manager ws []
      → length ws ≡ waiting_bound
      → register_or_execute D s t ≡ panicked
  unfolding register_or_execute wait_for_executor
  submit_overflows s ws t live w full = rw live (
      rw (pop-empty s.manager.waiting_executors w.idle)
        (rw (push-full s.manager.waiting_tasks ws t w.tasks (omega (arith, w.tasks_bound)))))

  pub submit_sends :
      (s : Scheduler Map) (ws : List Task) (e : ℕ) (is : List ℕ) (a : ℕ) (t : Task)
      → has_aborted s.aborts t ≡ false
      → Waits s.manager ws (e ∷ is)
      → IsOpen D s e a
      → Returns
          (λ s'.
            Keeps D s s'
            × Waits s'.manager ws is
            × (s'.channels ≡ update s.channels a (with_task (s.channels a) t)))
          (register_or_execute D s t)
  unfolding register_or_execute
  submit_sends s ws e is a t live w o = rw live (
      rw (pop-eq-popped s.manager.waiting_executors e is w.idle) (
        rw
          (send_task_lem D (with_executors s (popped s.manager.waiting_executors)) e a t still_open)
          ((refl, refl), left, refl)))
    where
      left : Waits (with_executors s (popped s.manager.waiting_executors)).manager ws is
      left = record {
        tasks = w.tasks;
        tasks_bound = w.tasks_bound;
        idle = popped-Holds _ e is w.idle;
        idle_bound = capacity-popped _ ∙ w.idle_bound;
      }

      still_open : IsOpen D (with_executors s (popped s.manager.waiting_executors)) e a
      still_open = record { registered = o.registered; receiver = o.receiver; room = o.room }
