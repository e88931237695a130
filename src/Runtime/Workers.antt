-- ===== src/Runtime/Workers.antt =====
-- The executors that `RuntimeBuilder::build` (src/runtime.rs) registers.
use native.Mathlib.Numerals.{add-one}
use hooch.Base.{
  ℕ, zero, suc, ◌+◌, ◌≤◌, ◌<◌, ◌≡◌, refl, subst, inl, some, none, Option, List, [], ◌∷◌, ◌++◌,
  length, length-append, length-replicate, count, count-snoc, Below, Below-snoc, arith, Returns,
  Returns-map, Returns-bind, ltb, count-nil, if◌then◌else◌,
}
use hooch.Ring
use hooch.Ring.Fifo.{new-Holds}
use hooch.SyncChannel
use hooch.DashMap.{DashMap}
use hooch.Task.{Task}
use hooch.Manager
use hooch.Manager.{Scheduler, TaskManager, waiting_bound, register_executor, wait_for_task}
use hooch.Manager.Waits.{Waits, wait_for_task_lem}
use hooch.Manager.System.{System, Inv}
use hooch.Runtime.{max_queued_tasks, new_executor, register_workers}

-- The numbers below `n`, in order.
unfoldable pub upto : ℕ → List ℕ
upto zero = []
upto (suc n) = upto n ++ n ∷ []

module _ (D : DashMap ℕ) where
  open D use {Map, get, insert, get-insert}

  -- Executors 0 to `i` - 1 are registered, and wait.
  record Registered (s : Scheduler Map) (i : ℕ) : Type 0 where
    waits : Waits s.manager [] (upto i)
    known : (e : ℕ) → e < i → get e s.manager.executors ≡ some e
    fresh : (e : ℕ) → e < i → s.channels e ≡ SyncChannel.sync_channel max_queued_tasks

  length-upto : (n : ℕ) → length (upto n) ≡ n
  unfolding upto
  length-upto zero = refl
  length-upto (suc n) = omega (arith, length-append (upto n) (n ∷ []), length-upto n)

  register_one :
      (s : Scheduler Map) (i : ℕ)
      → Registered s i
      → i < waiting_bound
      → Returns (λ s'. Registered s' (suc i)) (register_executor D (new_executor D s i) i i)
  unfolding register_executor new_executor upto
  register_one s i r room =
      let (returns, waits) =
        wait_for_task_lem D with_sender [] (upto i) i same (rw (length-upto i) room) in
      rw returns (record {
        waits = waits;
        known = λ e lt. ground (arith, r.known e, get-insert e i i s.manager.executors);
        fresh = λ e lt. ground (arith, r.fresh e);
      })
    where
      with_sender : Scheduler Map
      with_sender = record (new_executor D s i) {
        manager = record (s.manager) { executors = insert i i s.manager.executors };
      }

      same : Waits with_sender.manager [] (upto i)
      same = record {
        tasks = r.waits.tasks;
        tasks_bound = r.waits.tasks_bound;
        idle = r.waits.idle;
        idle_bound = r.waits.idle_bound;
      }

  register_workers_lem :
      (left i n : ℕ) (s : Scheduler Map)
      → i + left ≡ n
      → n ≤ waiting_bound
      → Registered s i
      → Returns (λ s'. Registered s' n) (register_workers D left i s)
  unfolding register_workers
  register_workers_lem zero i n s e few r =
      let all : i ≡ n = omega arith in subst (λ k. Registered s k) all r
  register_workers_lem (suc left) i n s e few r =
      Returns-bind _ _ (register_executor D (new_executor D s i) i i) _
        (register_one s i r (omega arith))
        (λ s' r'. rw add-one (register_workers_lem left (suc i) n s' (omega arith) few r'))

  count-upto : (n e : ℕ) → count e (upto n) ≡ (if ltb e n then 1 else 0)
  unfolding upto
  count-upto zero e = ground (arith, count-nil e)
  count-upto (suc n) e = ground (arith, count-snoc e n (upto n), count-upto n e)

  Below-upto_le : (n m : ℕ) → n ≤ m → Below m (upto n)
  unfolding upto
  Below-upto_le zero m le = tt
  Below-upto_le (suc n) m le =
      Below-snoc m n (upto n) (omega arith) (Below-upto_le n m (omega arith))

  pub new-Waits : (id : ℕ) → Waits (Manager.new D id) [] []
  unfolding Manager.new Ring.new
  new-Waits id = record {
    tasks = new-Holds waiting_bound (omega arith);
    tasks_bound = length-replicate {A = Option Task} waiting_bound none;
    idle = new-Holds waiting_bound (omega arith);
    idle_bound = length-replicate {A = Option ℕ} waiting_bound none;
  }

  -- The system whose executors have not been sent a task.
  abbrev pub at_rest : Scheduler Map → System Map
  at_rest s = record { sched = s; running = λ e. none }

  pub register_workers-Inv :
      (n : ℕ) (s : Scheduler Map) (id : ℕ)
      → n ≤ waiting_bound
      → s.manager ≡ Manager.new D id
      → Returns (λ s'. Inv D n (at_rest s') [] (upto n)) (register_workers D n 0 s)
  unfolding SyncChannel.sync_channel upto
  register_workers-Inv n s id few fresh =
      Returns-map _ _ (register_workers D n 0 s)
        (register_workers_lem n 0 n s (omega arith) few start)
        (λ s' _ r. record {
          few = few;
          waits = r.waits;
          registered = r.known;
          receivers = λ e lt. rw (r.fresh e lt) refl;
          bounds = λ e lt. rw (r.fresh e lt) (omega arith);
          below = Below-upto_le n n (omega arith);
          one_place = λ e lt. rw (r.fresh e lt) (ground (arith, count-upto n e));
          conserving = inl refl;
        })
    where
      start : Registered s 0
      start = record {
        waits = rw fresh (new-Waits id);
        known = λ e lt. elim lt [ ];
        fresh = λ e lt. elim lt [ ];
      }
