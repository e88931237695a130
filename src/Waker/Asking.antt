-- ===== src/Waker/Asking.antt =====
-- The references to tasks while an executor asks for work (`executor_ready` of src/task/manager.rs).
use hooch.Base.{
  done, ◌>>=◌, Returns-bind, ℕ, zero, suc, ◌+◌, ◌≡◌, ◌<◌, refl, subst, ap, false, none, some,
  Bool-cases, inl, inr, ◌==◌, List, [], ◌∷◌, ◌++◌, length, arith, Option, update, Returns,
}
use hooch.Ring.Fifo.{popped, pop-empty, pop-eq-popped}
use hooch.DashMap.{DashMap}
use hooch.Task.{Task, has_aborted}
use hooch.Manager.{Scheduler, with_tasks, wait_for_task, send_task}
use hooch.Manager.Waits.{wait_for_task_lem, send_task_lem}
use hooch.Manager.Ready.{popped-Waits}
use hooch.Manager.System.{Inv}
use hooch.Manager.Invariant.{IsOpen-of_running, parked-Inv, handed-Inv}
use hooch.Manager.Turn.{append-ne-nil}
use hooch.Manager.Owners.{held, held-sent}
use hooch.Waker.{Arcs, arc_drop}
use hooch.Waker.Handing.{Balanced}
use hooch.Waker.Rounds.{ready_loop, executor_ready}

module _ (D : DashMap ℕ) (n : ℕ) (running : ℕ → Option Task) where
  open D use {Map}

  -- A task that waits no longer leaves the invariant as it is.
  popped-Inv :
      (s : Scheduler Map) (t : Task) (ws : List Task) (is : List ℕ)
      → Inv D n (record { sched = s; running = running }) (t ∷ ws) is
      → Inv D n
          (record { sched = with_tasks s (popped s.manager.waiting_tasks); running = running })
          ws
          is
  popped-Inv s t ws is v = record {
    few = v.few;
    waits = popped-Waits D s t ws is v.waits;
    registered = v.registered;
    receivers = v.receivers;
    bounds = v.bounds;
    below = v.below;
    one_place = v.one_place;
    conserving = ground (arith, v.conserving);
  }

module _ (D : DashMap ℕ) (n : ℕ) (running : ℕ → Option Task) (others : ℕ → ℕ) where
  open D use {Map}

  -- An aborted task that waits is dropped.
  dropped-Balanced :
      (left room : ℕ) (wakers : ℕ → ℕ) (s : Arcs Map) (t : Task) (ws : List Task)
      (b : Balanced D n running others left room wakers s)
      → b.ws ≡ t ∷ ws
      → Returns
          (λ s'. (b' : Balanced D n running others left room wakers s') × (b'.ws ≡ ws))
          (arc_drop
            (record s { sched = with_tasks s.sched (popped s.sched.manager.waiting_tasks) })
            t.future)
  unfolding arc_drop
  dropped-Balanced left room wakers s t ws b waiting =
      let system : Inv D n (record { sched = s.sched; running = running }) (t ∷ ws) b.is =
        subst (λ ts. Inv D n (record { sched = s.sched; running = running }) ts b.is) waiting
          b.system in
      let counted : (ptr : ℕ)
          → s.strong ptr ≡ wakers ptr + held n s.sched.channels (t ∷ ws) ptr + others ptr =
        λ ptr.
          subst (λ ts. s.strong ptr ≡ wakers ptr + held n s.sched.channels ts ptr + others ptr)
            waiting (b.counted ptr) in
      let there : (s.strong t.future == 0) ≡ false = ground (arith, counted t.future) in
      rw there (
        record {
          ws = ws;
          is = b.is;
          system = popped-Inv D n running s.sched t ws b.is system;
          alive = b.alive;
          placed = b.placed;
          counted = λ ptr. ground (arith, counted ptr, counted t.future);
          countable = λ ptr. ground (arith, b.countable ptr, b.countable t.future);
          spacious = omega (arith, b.spacious, ap (λ (ts : List Task). length ts) waiting);
        },
        refl,
      )

  -- The invariant and the counts, with the tasks that wait written out.
  system_at :
      (left room : ℕ) (wakers : ℕ → ℕ) (s : Arcs Map) (ws : List Task)
      (b : Balanced D n running others left room wakers s)
      → b.ws ≡ ws
      → Inv D n (record { sched = s.sched; running = running }) ws b.is
        × ((ptr : ℕ) → s.strong ptr ≡ wakers ptr + held n s.sched.channels ws ptr + others ptr)
  system_at left room wakers s ws b waiting = (
    subst (λ ts. Inv D n (record { sched = s.sched; running = running }) ts b.is) waiting b.system,
    λ ptr.
        subst (λ ts. s.strong ptr ≡ wakers ptr + held n s.sched.channels ts ptr + others ptr)
          waiting (b.counted ptr),
  )

  -- With no task there, the executor waits.
  parked-Balanced :
      (left room : ℕ) (wakers : ℕ → ℕ) (s : Arcs Map) (e : ℕ) (p : Task)
      (b : Balanced D n running others left room wakers s)
      → b.ws ≡ []
      → e < n
      → running e ≡ some p
      → Returns
          (Balanced D n (update running e none) others left room wakers)
          (do sched ← wait_for_task D s.sched e; done (record s { sched = sched }))
  parked-Balanced left room wakers s e p b waiting lt at =
      let (system, counted) = system_at left room wakers s [] b waiting in
      let (_, space) = IsOpen-of_running D n _ [] b.is e p system lt at in
      let (returns, waits) = wait_for_task_lem D s.sched [] b.is e system.waits space in
      rw returns (record {
        ws = [];
        is = b.is ++ e ∷ [];
        system = parked-Inv D n _ [] b.is e p _ system lt at (refl, refl) waits refl;
        alive = b.alive;
        placed = b.placed;
        counted = counted;
        countable = b.countable;
        spacious = omega (arith, b.spacious);
      })

  -- A live task goes into the channel of the executor.
  sent-Balanced :
      (left room : ℕ) (wakers : ℕ → ℕ) (s : Arcs Map) (t : Task) (ws : List Task) (e : ℕ) (p : Task)
      (b : Balanced D n running others left room wakers s)
      → b.ws ≡ t ∷ ws
      → e < n
      → running e ≡ some p
      → Returns (Balanced D n (update running e none) others left room wakers) (do
        sched ← send_task D (with_tasks s.sched (popped s.sched.manager.waiting_tasks)) e t
        done (record s { sched = sched }))
  sent-Balanced left room wakers s t ws e p b waiting lt at =
      let (system, counted) = system_at left room wakers s (t ∷ ws) b waiting in
      let (opens, _) =
        IsOpen-of_running D n _ ws b.is e p (popped-Inv D n running s.sched t ws b.is system) lt
          at in
      let returns = send_task_lem D _ e e t opens in
      rw returns (record {
        ws = ws;
        is = b.is;
        system =
            handed-Inv D n _ (t ∷ ws) ws b.is e p t _ system lt at (append-ne-nil [] t ws)
              (refl, refl) (popped-Waits D s.sched t ws b.is system.waits) refl;
        alive = b.alive;
        placed = b.placed;
        counted = λ ptr. ground (arith, counted ptr, held-sent n s.sched.channels ws e t ptr lt);
        countable = b.countable;
        spacious = omega (arith, b.spacious, ap (λ (ts : List Task). length ts) waiting);
      })

  ready_loop-Balanced :
      (rounds left room : ℕ) (wakers : ℕ → ℕ) (s : Arcs Map) (ws : List Task) (e : ℕ) (p : Task)
      (b : Balanced D n running others left room wakers s)
      → b.ws ≡ ws
      → e < n
      → running e ≡ some p
      → length ws < rounds
      → Returns
          (Balanced D n (update running e none) others left room wakers)
          (ready_loop D rounds s e)
  unfolding ready_loop
  ready_loop-Balanced zero left room wakers s ws e p b waiting lt at enough = elim enough [ ]
  ready_loop-Balanced (suc rounds) left room wakers s [] e p b waiting lt at enough =
      let (system, _) = system_at left room wakers s [] b waiting in
      rw (pop-empty s.sched.manager.waiting_tasks system.waits.tasks)
        (parked-Balanced left room wakers s e p b waiting lt at)
  ready_loop-Balanced (suc rounds) left room wakers s (t ∷ ws) e p b waiting lt at enough =
      let (system, _) = system_at left room wakers s (t ∷ ws) b waiting in
      rw (pop-eq-popped s.sched.manager.waiting_tasks t ws system.waits.tasks)
        (elim (Bool-cases (has_aborted s.sched.aborts t)) [
          | inl dead ↦
              rw (dead, Returns)
                (Returns-bind
                  (λ s'. (b' : Balanced D n running others left room wakers s') × (b'.ws ≡ ws)) _ _
                  (λ s''. ready_loop D rounds s'' e)
                  (dropped-Balanced left room wakers s t ws b waiting)
                  (λ s' (b', waiting').
                    ready_loop-Balanced rounds left room wakers s' ws e p b' waiting' lt at
                      (omega arith)))
          | inr live ↦
              rw (live, Returns) (sent-Balanced left room wakers s t ws e p b waiting lt at)
        ])

  -- A request for work after a poll.
  pub ready-Balanced :
      (left room : ℕ) (wakers : ℕ → ℕ) (s : Arcs Map) (e : ℕ) (p : Task)
      → Balanced D n running others left room wakers s
      → e < n
      → running e ≡ some p
      → Returns
          (Balanced D n (update running e none) others left room wakers)
          (executor_ready D s e)
  unfolding executor_ready
  ready-Balanced left room wakers s e p b lt at =
      ready_loop-Balanced _ left room wakers s b.ws e p b refl lt at
        (omega (arith, b.system.waits.tasks.counted))
