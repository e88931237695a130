-- ===== src/Waker/Handing.antt =====
-- What a waker's reference to its task (src/task/task.rs) becomes when it is cloned, dropped, or handed
-- over to the manager (src/task/manager.rs).
use hooch.Base.{
  ℕ, suc, ◌+◌, ◌-◌, ◌≡◌, ◌<◌, ◌≤◌, length-append, refl, subst, true, false, Bool-cases, inl, inr,
  ltb, ◌==◌, List, [], ◌∷◌, ◌++◌, length, arith, Option, update, Returns, Returns-value,
}
use hooch.DashMap.{DashMap}
use hooch.Task.{Task, has_aborted}
use hooch.Manager.{Scheduler, waiting_bound, register_or_execute}
use hooch.Manager.Submit.{submit_dead, submit-Waits, submit_sends}
use hooch.Manager.System.{Inv}
use hooch.Manager.Invariant.{IsOpen-of_idle, sent-Inv, queued-Inv}
use hooch.Waker.{Arcs, max_references, arc_clone, arc_drop, hand_over}
use hooch.Manager.Owners.{held, one_at, held-queued, held-sent}

module _ (D : DashMap ℕ) (n : ℕ) (running : ℕ → Option Task) (others : ℕ → ℕ) where
  open D use {Map}

  -- Besides the wakers and the queues, `others` hold references. There may be `left` references more
  -- to each task, and `room` more tasks may wait.
  pub record Balanced (left room : ℕ) (wakers : ℕ → ℕ) (s : Arcs Map) : Type 0 where
    pub ws : List Task
    pub is : List ℕ
    pub system : Inv D n (record { sched = s.sched; running = running }) ws is
    pub alive : s.manager_alive ≡ true
    pub placed : (ptr : ℕ) → (s.tasks ptr).future ≡ ptr
    pub counted :
        (ptr : ℕ) → s.strong ptr ≡ wakers ptr + held n s.sched.channels ws ptr + others ptr
    pub countable : (ptr : ℕ) → s.strong ptr + left ≤ max_references
    pub spacious : length ws + room ≤ waiting_bound

  -- A waker tells that its task is not freed.
  pub still_there :
      (left room : ℕ) (wakers : ℕ → ℕ) (s : Arcs Map) (ptr : ℕ)
      → Balanced left room wakers s
      → 0 < wakers ptr
      → (s.strong ptr == 0) ≡ false
  still_there left room wakers s ptr b some_held = ground (arith, b.counted ptr)

  pub use_less :
      (left left' room room' : ℕ) (wakers : ℕ → ℕ) (s : Arcs Map)
      → left' ≤ left
      → room' ≤ room
      → Balanced left room wakers s
      → Balanced left' room' wakers s
  use_less left left' room room' wakers s fewer smaller b = record {
    ws = b.ws;
    is = b.is;
    system = b.system;
    alive = b.alive;
    placed = b.placed;
    counted = b.counted;
    countable = λ a. omega (arith, b.countable a);
    spacious = omega (arith, b.spacious);
  }

  -- The clone of any reference becomes a waker.
  pub clone_of-Balanced :
      (left room : ℕ) (wakers : ℕ → ℕ) (s : Arcs Map) (ptr : ℕ)
      → Balanced (suc left) room wakers s
      → (s.strong ptr == 0) ≡ false
      → Returns (Balanced left room (update wakers ptr (wakers ptr + 1))) (arc_clone s ptr)
  unfolding arc_clone
  clone_of-Balanced left room wakers s ptr b there =
      rw (there, few)
        (record {
          ws = b.ws;
          is = b.is;
          system = b.system;
          alive = b.alive;
          placed = b.placed;
          counted = λ a. ground (arith, b.counted a, b.counted ptr);
          countable = λ a. ground (arith, b.countable a, b.countable ptr);
          spacious = b.spacious;
        })
    where
      few : ltb max_references (s.strong ptr) ≡ false
      few = ground (arith, b.countable ptr)

  pub clone-Balanced :
      (left room : ℕ) (wakers : ℕ → ℕ) (s : Arcs Map) (ptr : ℕ)
      → Balanced (suc left) room wakers s
      → 0 < wakers ptr
      → Returns (Balanced left room (update wakers ptr (wakers ptr + 1))) (arc_clone s ptr)
  clone-Balanced left room wakers s ptr b some_held =
      clone_of-Balanced left room wakers s ptr b
        (still_there (suc left) room wakers s ptr b some_held)

  pub drop-Balanced :
      (left room : ℕ) (wakers : ℕ → ℕ) (s : Arcs Map) (ptr : ℕ)
      → Balanced left room wakers s
      → 0 < wakers ptr
      → Returns (Balanced left room (update wakers ptr (wakers ptr - 1))) (arc_drop s ptr)
  unfolding arc_drop
  drop-Balanced left room wakers s ptr b some_held =
      rw (still_there left room wakers s ptr b some_held) (record {
        ws = b.ws;
        is = b.is;
        system = b.system;
        alive = b.alive;
        placed = b.placed;
        counted = λ a. ground (arith, b.counted a, b.counted ptr);
        countable = λ a. ground (arith, b.countable a, b.countable ptr);
        spacious = b.spacious;
      })

  -- The reference of a waker goes to the queues.
  handed-Balanced :
      (left room : ℕ) (wakers : ℕ → ℕ) (s : Arcs Map) (ptr : ℕ) (sched : Scheduler Map)
      (ws : List Task) (is : List ℕ) (b : Balanced left (suc room) wakers s)
      → 0 < wakers ptr
      → Inv D n (record { sched = sched; running = running }) ws is
      → length ws ≤ length b.ws + 1
      → ((a : ℕ)
          → held n sched.channels ws a ≡ held n s.sched.channels b.ws a + one_at a (s.tasks ptr))
      → Balanced left room (update wakers ptr (wakers ptr - 1)) (record s { sched = sched })
  handed-Balanced left room wakers s ptr sched ws is b some_held system longer one_more = record {
    ws = ws;
    is = is;
    system = system;
    alive = b.alive;
    placed = b.placed;
    counted = λ a. ground (arith, b.counted a, one_more a, b.placed ptr);
    countable = b.countable;
    spacious = omega (arith, b.spacious, longer);
  }

  -- A live task waits, if no executor does.
  queued-Balanced :
      (left room : ℕ) (wakers : ℕ → ℕ) (s : Arcs Map) (ptr : ℕ)
      (b : Balanced left (suc room) wakers s)
      → 0 < wakers ptr
      → has_aborted s.sched.aborts (s.tasks ptr) ≡ false
      → b.is ≡ []
      → Returns (Balanced left room (update wakers ptr (wakers ptr - 1))) (hand_over D s ptr)
  unfolding hand_over
  queued-Balanced left room wakers s ptr b some_held live none_idle =
      let (sched, returns, (kept, waits, channels)) =
        Returns-value _ (register_or_execute D s.sched (s.tasks ptr)) (
          submit-Waits D s.sched b.ws (s.tasks ptr) live system.waits
            (omega (arith, b.spacious))) in
      rw (returns, live)
        (handed-Balanced left room wakers s ptr sched (b.ws ++ s.tasks ptr ∷ []) [] b some_held
          (queued-Inv D n (record { sched = s.sched; running = running }) b.ws (s.tasks ptr) sched
            system kept waits channels)
          (omega (arith, length-append b.ws (s.tasks ptr ∷ [])))
          (λ a. rw channels (held-queued n s.sched.channels b.ws (s.tasks ptr) a)))
    where
      system : Inv D n (record { sched = s.sched; running = running }) b.ws []
      system =
          subst (λ is. Inv D n (record { sched = s.sched; running = running }) b.ws is) none_idle
            b.system

  -- Otherwise it goes to the executor that has waited longest.
  sent-Balanced :
      (left room : ℕ) (wakers : ℕ → ℕ) (s : Arcs Map) (ptr e : ℕ) (is : List ℕ)
      (b : Balanced left (suc room) wakers s)
      → 0 < wakers ptr
      → has_aborted s.sched.aborts (s.tasks ptr) ≡ false
      → b.is ≡ e ∷ is
      → Returns (Balanced left room (update wakers ptr (wakers ptr - 1))) (hand_over D s ptr)
  unfolding hand_over
  sent-Balanced left room wakers s ptr e is b some_held live some_idle =
      let (sched, returns, (kept, waits, channels)) =
        Returns-value _ (register_or_execute D s.sched (s.tasks ptr)) (
          submit_sends D s.sched b.ws e is e (s.tasks ptr) live system.waits
            (IsOpen-of_idle D n _ b.ws e is system)) in
      rw (returns, live)
        (handed-Balanced left room wakers s ptr sched b.ws is b some_held
          (sent-Inv D n (record { sched = s.sched; running = running }) b.ws e is (s.tasks ptr)
            sched system kept waits channels)
          (omega arith)
          (λ a. rw channels (held-sent n s.sched.channels b.ws e (s.tasks ptr) a system.below.0)))
    where
      system : Inv D n (record { sched = s.sched; running = running }) b.ws (e ∷ is)
      system =
          subst (λ is. Inv D n (record { sched = s.sched; running = running }) b.ws is) some_idle
            b.system

  live-Balanced :
      (left room : ℕ) (wakers : ℕ → ℕ) (s : Arcs Map) (ptr : ℕ) (is : List ℕ)
      (b : Balanced left (suc room) wakers s)
      → 0 < wakers ptr
      → has_aborted s.sched.aborts (s.tasks ptr) ≡ false
      → b.is ≡ is
      → Returns (Balanced left room (update wakers ptr (wakers ptr - 1))) (hand_over D s ptr)
  live-Balanced left room wakers s ptr [] b some_held live waiting =
      queued-Balanced left room wakers s ptr b some_held live waiting
  live-Balanced left room wakers s ptr (e ∷ is) b some_held live waiting =
      sent-Balanced left room wakers s ptr e is b some_held live waiting

  -- A task that has been aborted does not take its reference over.
  dead-Balanced :
      (left room : ℕ) (wakers : ℕ → ℕ) (s : Arcs Map) (ptr : ℕ)
      → Balanced left room wakers s
      → 0 < wakers ptr
      → has_aborted s.sched.aborts (s.tasks ptr) ≡ true
      → Returns (Balanced left room (update wakers ptr (wakers ptr - 1))) (hand_over D s ptr)
  unfolding hand_over
  dead-Balanced left room wakers s ptr b some_held dead =
      rw (submit_dead D s.sched (s.tasks ptr) dead, dead)
        (drop-Balanced left room wakers s ptr b some_held)

  pub hand_over-Balanced :
      (left room : ℕ) (wakers : ℕ → ℕ) (s : Arcs Map) (ptr : ℕ)
      → Balanced left (suc room) wakers s
      → 0 < wakers ptr
      → Returns (Balanced left room (update wakers ptr (wakers ptr - 1))) (hand_over D s ptr)
  hand_over-Balanced left room wakers s ptr b some_held =
      elim (Bool-cases (has_aborted s.sched.aborts (s.tasks ptr))) [
        | inl dead ↦
            dead-Balanced left room wakers s ptr
              (use_less left left (suc room) room wakers s (omega arith) (omega arith) b) some_held
              dead
        | inr live ↦ live-Balanced left room wakers s ptr b.is b some_held live refl
      ]
