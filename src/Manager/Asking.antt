-- ===== src/Manager/Asking.antt =====
-- Whole accesses of a thread that submits a task to src/task/manager.rs, and of an executor that asks
-- for one.
use hooch.Base.{
  Bool, if◌then◌else◌, ℕ, ◌+◌, ◌≡◌, refl, Bool-cases, inl, inr, List, [], ◌∷◌, arith, Whenever,
  Whenever-bind, ◌∙◌,
}
use hooch.Ring.Fifo.{pop-empty, pop-eq-popped, popped-Holds, capacity-popped}
use hooch.DashMap.{DashMap}
use hooch.Task.{Task, has_aborted}
use hooch.Manager.{Scheduler, wait_for_task, wait_for_executor, send_task}
use hooch.Manager.Owners.{one_at}
use hooch.Manager.Halves.{ReadyPc, SubmitPc, ready_access, submit_access}
use hooch.Manager.Hands.{
  nothing, offered, carried, dropped_at, refused, passed_over, dropped-Excused,
}
use hooch.Manager.Accesses.{Fine, Kept, send_task-Kept, queue-Kept, park-Kept, same-Kept}

module _ (D : DashMap ℕ) (m : ℕ) where
  open D use {Map, get}

  seek-Kept :
      (s : Scheduler Map) (ws : List Task) (is : List ℕ) (t : Task)
      → Fine D m s ws is
      → Whenever
          (λ (pc, s'). Kept D m s ws (λ ptr. one_at ptr t) (λ ptr. offered ptr pc) nothing s')
          (submit_access D (SubmitPc.seeking t) s)
  unfolding submit_access
  seek-Kept s ws [] t f =
      rw (pop-empty s.manager.waiting_executors f.waits.idle)
        (same-Kept D m s ws [] _ _ _ f (λ ptr. inl refl) (λ ptr. omega arith))
  seek-Kept s ws (e ∷ is) t f =
      rw (pop-eq-popped s.manager.waiting_executors e is f.waits.idle) (record {
        tasks = ws;
        idle = is;
        fine = record {
          waits = record {
            tasks = f.waits.tasks;
            tasks_bound = f.waits.tasks_bound;
            idle = popped-Holds _ e is f.waits.idle;
            idle_bound = capacity-popped _ ∙ f.waits.idle_bound;
          };
          addresses = f.addresses;
        };
        flags = refl;
        excused = λ ptr. inl refl;
        balance = λ ptr. omega arith;
      })

  -- An aborted task that an executor takes out is dropped, and the executor asks again.
  taken_or_dropped :
      (aborts : ℕ → Bool) (t : Task) (ptr : ℕ)
      → carried ptr (if has_aborted aborts t then ReadyPc.asking else ReadyPc.sending t)
          + dropped_at aborts ptr t
        ≡ one_at ptr t
  taken_or_dropped aborts t ptr = elim (Bool-cases (has_aborted aborts t)) [
    | inl set ↦ rw set (omega arith)
    | inr clear ↦ rw clear (omega arith)
  ]

  -- An aborted task that a thread submits is dropped, and the thread returns.
  sought_or_dropped :
      (aborts : ℕ → Bool) (t : Task) (ptr : ℕ)
      → offered ptr (if has_aborted aborts t then SubmitPc.returned else SubmitPc.seeking t)
          + dropped_at aborts ptr t
        ≡ one_at ptr t
  sought_or_dropped aborts t ptr = elim (Bool-cases (has_aborted aborts t)) [
    | inl set ↦ rw set (omega arith)
    | inr clear ↦ rw clear (omega arith)
  ]

  ask-Kept :
      (s : Scheduler Map) (ws : List Task) (is : List ℕ) (e : ℕ)
      → Fine D m s ws is
      → Whenever
          (λ (pc, s').
            Kept D m s ws nothing (λ ptr. carried ptr pc) (passed_over s ReadyPc.asking) s')
          (ready_access D e ReadyPc.asking s)
  unfolding ready_access
  ask-Kept s [] is e f = rw (pop-empty s.manager.waiting_tasks f.waits.tasks) (
      same-Kept D m s [] is _ _ _ f
        (λ ptr. rw (pop-empty s.manager.waiting_tasks f.waits.tasks, passed_over) (inl refl))
        (λ ptr. rw (pop-empty s.manager.waiting_tasks f.waits.tasks, passed_over) refl))
  ask-Kept s (t ∷ ws) is e f =
      let taken = pop-eq-popped s.manager.waiting_tasks t ws f.waits.tasks in
      rw taken (record {
        tasks = ws;
        idle = is;
        fine = record {
          waits = record {
            tasks = popped-Holds _ t ws f.waits.tasks;
            tasks_bound = capacity-popped _ ∙ f.waits.tasks_bound;
            idle = f.waits.idle;
            idle_bound = f.waits.idle_bound;
          };
          addresses = f.addresses;
        };
        flags = refl;
        excused = λ ptr. rw (taken, passed_over) (dropped-Excused s.aborts t ptr);
        balance = λ ptr. rw (taken, passed_over) (ground (arith, taken_or_dropped s.aborts t ptr));
      })

  pub submit-Kept :
      (s : Scheduler Map) (ws : List Task) (is : List ℕ) (pc : SubmitPc)
      → Fine D m s ws is
      → Whenever
          (λ (pc', s').
            Kept D m s ws (λ ptr. offered ptr pc) (λ ptr. offered ptr pc') (refused s.aborts pc) s')
          (submit_access D pc s)
  unfolding submit_access
  submit-Kept s ws is (SubmitPc.arriving t) f =
      same-Kept D m s ws is _ _ _ f (λ ptr. dropped-Excused s.aborts t ptr)
        (sought_or_dropped s.aborts t)
  submit-Kept s ws is (SubmitPc.seeking t) f = seek-Kept s ws is t f
  submit-Kept s ws is (SubmitPc.queueing t) f =
      Whenever-bind _ _ (wait_for_executor D s t) _ (queue-Kept D m s ws is t f) (λ s' kept. kept)
  submit-Kept s ws is (SubmitPc.sending e t) f =
      Whenever-bind _ _ (send_task D s e t) _ (send_task-Kept D m s ws is e t f) (λ s' kept. kept)
  submit-Kept s ws is SubmitPc.returned f =
      same-Kept D m s ws is _ _ _ f (λ ptr. inl refl) (λ ptr. refl)

  pub ready-Kept :
      (s : Scheduler Map) (ws : List Task) (is : List ℕ) (e : ℕ) (pc : ReadyPc)
      → Fine D m s ws is
      → Whenever
          (λ (pc', s').
            Kept D m s ws (λ ptr. carried ptr pc) (λ ptr. carried ptr pc') (passed_over s pc) s')
          (ready_access D e pc s)
  unfolding ready_access
  ready-Kept s ws is e ReadyPc.asking f = ask-Kept s ws is e f
  ready-Kept s ws is e ReadyPc.parking f =
      Whenever-bind _ _ (wait_for_task D s e) _ (park-Kept D m s ws is e f) (λ s' kept. kept)
  ready-Kept s ws is e (ReadyPc.sending t) f =
      Whenever-bind _ _ (send_task D s e t) _ (send_task-Kept D m s ws is e t f) (λ s' kept. kept)
  ready-Kept s ws is e ReadyPc.returned f =
      same-Kept D m s ws is _ _ _ f (λ ptr. inl refl) (λ ptr. refl)
