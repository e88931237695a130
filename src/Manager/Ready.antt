-- ===== src/Manager/Ready.antt =====
-- `TaskManager::executor_ready` of src/task/manager.rs.
use hooch.Base.{
  ℕ, zero, suc, ◌≡◌, ◌<◌, refl, sym, subst, ◌∙◌, Bool, true, false, Bool-cases, inl, inr, List, [],
  ◌∷◌, ◌++◌, length, arith, update, Exec, Returns,
}
use hooch.Ring.Fifo.{popped, capacity-popped, pop-empty, pop-eq-popped, popped-Holds}
use hooch.SyncChannel.{SyncChannel}
use hooch.DashMap.{DashMap}
use hooch.Task.{Task, has_aborted}
use hooch.Manager.{
  Scheduler, ExecutorTask, waiting_bound, send_task, ready_loop, executor_ready, with_tasks,
}
use hooch.Manager.Waits.{Waits, with_task, IsOpen, Keeps, send_task_lem, wait_for_task_lem}

-- The tasks from the first one on that is not aborted.
pub skip_aborted : (ℕ → Bool) → List Task → List Task
skip_aborted aborts [] = []
skip_aborted aborts (t ∷ ts) = elim (has_aborted aborts t) [
  | true ↦ skip_aborted aborts ts
  | false ↦ t ∷ ts
]

pub skip_aborted-nil : (aborts : ℕ → Bool) → skip_aborted aborts [] ≡ []
unfolding skip_aborted
skip_aborted-nil aborts = refl

pub skip_aborted-cons_dead :
    (aborts : ℕ → Bool) (t : Task) (ts : List Task)
    → has_aborted aborts t ≡ true
    → skip_aborted aborts (t ∷ ts) ≡ skip_aborted aborts ts
unfolding skip_aborted
skip_aborted-cons_dead aborts t ts dead = rw (dead, skip_aborted)

pub skip_aborted-cons_live :
    (aborts : ℕ → Bool) (t : Task) (ts : List Task)
    → has_aborted aborts t ≡ false
    → skip_aborted aborts (t ∷ ts) ≡ t ∷ ts
unfolding skip_aborted
skip_aborted-cons_live aborts t ts live = rw (live, skip_aborted)

module _ (D : DashMap ℕ) where
  open D use {Map}

  -- What `executor_ready` leaves behind, where `ts` are the tasks from the first live one on.
  abbrev pub AfterReady :
      (ℕ → SyncChannel ExecutorTask) → List ℕ → ℕ → ℕ → List Task → Scheduler Map → Type 0
  AfterReady channels is e a [] s' = Waits s'.manager [] (is ++ e ∷ []) × (s'.channels ≡ channels)
  AfterReady channels is e a (t ∷ rest) s' =
      Waits s'.manager rest is × (s'.channels ≡ update channels a (with_task (channels a) t))

  -- A call returns, and leaves that behind.
  abbrev pub Readied : Scheduler Map → List ℕ → ℕ → ℕ → List Task → Exec (Scheduler Map) → Type 0
  Readied s is e a ts m = Returns (λ s'. Keeps D s s' × AfterReady s.channels is e a ts s') m

  pub popped-Waits :
      (s : Scheduler Map) (t : Task) (ws : List Task) (is : List ℕ)
      → Waits s.manager (t ∷ ws) is
      → Waits (with_tasks s (popped s.manager.waiting_tasks)).manager ws is
  popped-Waits s t ws is w = record {
    tasks = popped-Holds _ t ws w.tasks;
    tasks_bound = capacity-popped _ ∙ w.tasks_bound;
    idle = w.idle;
    idle_bound = w.idle_bound;
  }

  ready_loop_lem :
      (rounds : ℕ) (s : Scheduler Map) (ws : List Task) (is : List ℕ) (e a : ℕ)
      → Waits s.manager ws is
      → IsOpen D s e a
      → length is < waiting_bound
      → length ws < rounds
      → Readied s is e a (skip_aborted s.aborts ws) (ready_loop D rounds s e)
  unfolding ready_loop
  ready_loop_lem zero s ws is e a w o room enough = elim enough [ ]
  ready_loop_lem (suc rounds) s [] is e a w o room enough =
      let (returns, waits) = wait_for_task_lem D s [] is e w room in
      subst (λ ts. Readied s is e a ts (ready_loop D (suc rounds) s e))
        (sym (skip_aborted-nil s.aborts))
        (rw (pop-empty s.manager.waiting_tasks w.tasks) (rw returns ((refl, refl), (waits, refl))))
  ready_loop_lem (suc rounds) s (t ∷ ws) is e a w o room enough =
      rw (pop-eq-popped s.manager.waiting_tasks t ws w.tasks)
        (elim (Bool-cases (has_aborted s.aborts t)) [
          | inl dead ↦
              rw (dead, Returns)
                (subst (λ ts. Readied s is e a ts (ready_loop D rounds s' e))
                  (sym (skip_aborted-cons_dead s.aborts t ws dead))
                  (ready_loop_lem rounds s' ws is e a left still_open room (omega arith)))
          | inr live ↦
              rw (live, Returns)
                (subst (λ ts. Readied s is e a ts (send_task D s' e t))
                  (sym (skip_aborted-cons_live s.aborts t ws live))
                  (rw (send_task_lem D s' e a t still_open) ((refl, refl), (left, refl))))
        ])
    where
      s' : Scheduler Map
      s' = with_tasks s (popped s.manager.waiting_tasks)

      left : Waits s'.manager ws is
      left = popped-Waits s t ws is w

      still_open : IsOpen D s' e a
      still_open = record { registered = o.registered; receiver = o.receiver; room = o.room }

  -- Let an executor ask for work that is registered and whose channel has room, with fewer than
  -- 128000 executors waiting. Then `executor_ready` returns. It takes the waiting tasks from the
  -- oldest on and drops those that are aborted; the first live one goes into the executor's channel
  -- and the younger ones go on waiting, or, if none is live, the executor is put behind the
  -- executors that wait. Abort flags and registrations stay as they are.
  pub executor_ready_lem :
      (s : Scheduler Map) (ws : List Task) (is : List ℕ) (e a : ℕ)
      → Waits s.manager ws is
      → IsOpen D s e a
      → length is < waiting_bound
      → Readied s is e a (skip_aborted s.aborts ws) (executor_ready D s e)
  unfolding executor_ready
  executor_ready_lem s ws is e a w o room =
      ready_loop_lem _ s ws is e a w o room (omega (arith, w.tasks.counted))
