-- ===== src/Manager/Accesses.antt =====
-- Single accesses of the methods of src/task/manager.rs, whatever tasks and executors wait.
use hooch.Base.{
  ℕ, ◌+◌, ◌≡◌, ◌<◌, refl, none, some, Option, Bool-cases, inl, inr, List, [], ◌∷◌, ◌++◌, length,
  arith, ltb, update, panicked, Whenever,
}
use hooch.Ring.Fifo.{push-full}
use hooch.SyncChannel.{send-room, send-full, send-closed}
use hooch.DashMap.{DashMap}
use hooch.Task.{Task}
use hooch.Manager.{Scheduler, task, waiting_bound, wait_for_task, wait_for_executor, send_task}
use hooch.Manager.Waits.{Waits, with_task, wait_for_task_lem, wait_for_executor_lem}
use hooch.Manager.Owners.{one_at, held, held-queued, held-sent}
use hooch.Manager.Hands.{nothing, Excused}

module _ (D : DashMap ℕ) where
  open D use {Map, get}

  -- A task that is sent is in the channel of a registered executor.
  pub send_task-Whenever :
      (s : Scheduler Map) (e : ℕ) (t : Task) (P : Scheduler Map → Type 0) (found : Option ℕ)
      → get e s.manager.executors ≡ found
      → ((a : ℕ)
          → found ≡ some a
          → P (record s { channels = update s.channels a (with_task (s.channels a) t) }))
      → Whenever P (send_task D s e t)
  unfolding send_task
  send_task-Whenever s e t P none at h = rw at tt
  send_task-Whenever s e t P (some a) at h = elim (Bool-cases (s.channels a).receiver) [
    | inl alive ↦ elim (Bool-cases (ltb (length (s.channels a).queue) (s.channels a).bound)) [
      | inl room ↦ rw (at, send-room (s.channels a) (task t) alive (ground arith)) (h a refl)
      | inr full ↦ rw (at, send-full (s.channels a) (task t) alive (ground arith)) tt
    ]
    | inr dropped ↦ rw (at, send-closed (s.channels a) (task t) dropped) tt
  ]

  queue-full :
      (s : Scheduler Map) (ws : List Task) (is : List ℕ) (t : Task)
      → Waits s.manager ws is
      → length ws ≡ waiting_bound
      → wait_for_executor D s t ≡ panicked
  unfolding wait_for_executor
  queue-full s ws is t w full =
      rw (push-full s.manager.waiting_tasks ws t w.tasks (omega (arith, w.tasks_bound))) refl

  park-full :
      (s : Scheduler Map) (ws : List Task) (is : List ℕ) (e : ℕ)
      → Waits s.manager ws is
      → length is ≡ waiting_bound
      → wait_for_task D s e ≡ panicked
  unfolding wait_for_task
  park-full s ws is e w full =
      rw (push-full s.manager.waiting_executors is e w.idle (omega (arith, w.idle_bound))) refl

module _ (D : DashMap ℕ) (m : ℕ) where
  open D use {Map, get}

  -- The tasks `ws` and the executors `is` wait, and the registered senders are
  -- those of the executors 0 to `m` - 1.
  pub record Fine (s : Scheduler Map) (ws : List Task) (is : List ℕ) : Type 0 where
    pub waits : Waits s.manager ws is
    pub addresses : (e a : ℕ) → get e s.manager.executors ≡ some a → a < m

  -- From `s` and a thread with the tasks `before`, to `s'` and the thread with the tasks `after`, where
  -- the tasks `drops` are dropped.
  pub record Kept (s : Scheduler Map) (ws : List Task) (before after drops : ℕ → ℕ)
      (s' : Scheduler Map) : Type 0 where
    pub tasks : List Task
    pub idle : List ℕ
    pub fine : Fine s' tasks idle
    pub flags : s'.aborts ≡ s.aborts
    pub excused : (ptr : ℕ) → Excused s.aborts drops ptr
    pub balance :
        (ptr : ℕ)
        → held m s'.channels tasks ptr + after ptr + drops ptr
          ≡ held m s.channels ws ptr + before ptr

  pub send_task-Kept :
      (s : Scheduler Map) (ws : List Task) (is : List ℕ) (e : ℕ) (t : Task)
      → Fine s ws is
      → Whenever (Kept s ws (λ ptr. one_at ptr t) nothing nothing) (send_task D s e t)
  send_task-Kept s ws is e t f =
      send_task-Whenever D s e t _ (get e s.manager.executors) refl (λ a at. record {
        tasks = ws;
        idle = is;
        fine = record { waits = f.waits; addresses = f.addresses };
        flags = refl;
        excused = λ ptr. inl refl;
        balance = λ ptr. omega (arith, held-sent m s.channels ws a t ptr (f.addresses e a at));
      })

  pub queue-Kept :
      (s : Scheduler Map) (ws : List Task) (is : List ℕ) (t : Task)
      → Fine s ws is
      → Whenever (Kept s ws (λ ptr. one_at ptr t) nothing nothing) (wait_for_executor D s t)
  queue-Kept s ws is t f = elim (Bool-cases (ltb (length ws) waiting_bound)) [
    | inl room ↦
        let (returns, waits) = wait_for_executor_lem D s ws is t f.waits (ground arith) in
        rw returns (record {
          tasks = ws ++ t ∷ [];
          idle = is;
          fine = record { waits = waits; addresses = f.addresses };
          flags = refl;
          excused = λ ptr. inl refl;
          balance = λ ptr. omega (arith, held-queued m s.channels ws t ptr);
        })
    | inr full ↦
        rw
          (queue-full D s ws is t f.waits (ground (arith, f.waits.tasks.fits, f.waits.tasks_bound)))
          tt
  ]

  pub park-Kept :
      (s : Scheduler Map) (ws : List Task) (is : List ℕ) (e : ℕ)
      → Fine s ws is
      → Whenever (Kept s ws nothing nothing nothing) (wait_for_task D s e)
  park-Kept s ws is e f = elim (Bool-cases (ltb (length is) waiting_bound)) [
    | inl room ↦
        let (returns, waits) = wait_for_task_lem D s ws is e f.waits (ground arith) in
        rw returns (record {
          tasks = ws;
          idle = is ++ e ∷ [];
          fine = record { waits = waits; addresses = f.addresses };
          flags = refl;
          excused = λ ptr. inl refl;
          balance = λ ptr. omega arith;
        })
    | inr full ↦
        rw (park-full D s ws is e f.waits (ground (arith, f.waits.idle.fits, f.waits.idle_bound)))
          tt
  ]

  -- An access that leaves the scheduler alone.
  pub same-Kept :
      (s : Scheduler Map) (ws : List Task) (is : List ℕ) (before after drops : ℕ → ℕ)
      → Fine s ws is
      → ((ptr : ℕ) → Excused s.aborts drops ptr)
      → ((ptr : ℕ) → after ptr + drops ptr ≡ before ptr)
      → Kept s ws before after drops s
  same-Kept s ws is before after drops f excused same = record {
    tasks = ws;
    idle = is;
    fine = f;
    flags = refl;
    excused = excused;
    balance = λ ptr. omega (arith, same ptr);
  }
