-- ===== src/Runtime/Waking.antt =====
-- Where the calls of the event loop (src/reactor.rs) on the wakers of src/task/task.rs put their tasks.
use hooch.Base.{
  ℕ, ◌≡◌, ◌<◌, ap, ◌∙◌, false, Option, List, [], ◌∷◌, ◌++◌, length, done, >>=-done, Returns,
  Returns-value, Whenever-done, Whenever, subst, Exec, sym, Bool, Returns-bind, Returns-both, suc,
}
use hooch.DashMap.{DashMap}
use hooch.Task.{Task, has_aborted}
use hooch.Manager.{register_or_execute}
use hooch.Manager.Placed.{Placed, submit-Placed}
use hooch.Reactor.{Waker}
use hooch.Waker.{Arcs, wake, wake_by_ref}
use hooch.Waker.Ops.{WakerOp, target, wakers_after, wakes, wakes_by_ref, AreHeld, perform, run}
use hooch.Waker.Handing.{Balanced}
use hooch.Waker.Balance.{perform-Balanced, wakers_balance}
use hooch.Waker.Kept.{Same, perform-Keeping, wake-submits, wake_by_ref-submits}
use hooch.Runtime.Delivery.{tag_calls}

module _ (D : DashMap ℕ) (n : ℕ) where
  open D use {Map}

  -- A call on a waker that submits the live task `t`.
  call_places :
      (op : WakerOp) (running : ℕ → Option Task) (others : ℕ → ℕ) (wakers : ℕ → ℕ) (s : Arcs Map)
      (t : Task)
      → Balanced D n running others 1 1 wakers s
      → 0 < wakers (target op)
      → has_aborted s.sched.aborts t ≡ false
      → Whenever (λ s'. register_or_execute D s.sched t ≡ done s'.sched) (perform D op s)
      → Returns
          (λ s'.
            Balanced D n running others 0 0 (wakers_after op wakers) s'
            × Placed D n t (record { sched = s'.sched; running = running }))
          (run D (op ∷ []) s)
  unfolding run
  call_places op running others wakers s t b some_held live submits =
      let (s', returns, b') =
        Returns-value _ (run D (op ∷ []) s)
          (wakers_balance D n running others (op ∷ []) 0 0 wakers s b (some_held, tt)) in
      let returns' : perform D op s ≡ done s' = sym (>>=-done (perform D op s)) ∙ returns in
      let submitted : register_or_execute D s.sched t ≡ done s'.sched =
        Whenever-done _ (perform D op s) returns' submits in
      rw returns' (
        b',
        submit-Placed D n (record { sched = s.sched; running = running }) b.ws b.is t s'.sched
            b.system live submitted,
      )

  -- What a call submits is the task at the waker's address.
  submits_own :
      (s : Arcs Map) (t u : Task) (m : Exec (Arcs Map))
      → u ≡ t
      → has_aborted s.sched.aborts t ≡ false
      → (has_aborted s.sched.aborts u ≡ false
          → Whenever (λ s'. register_or_execute D s.sched u ≡ done s'.sched) m)
      → Whenever (λ s'. register_or_execute D s.sched t ≡ done s'.sched) m
  submits_own s t u m own live submits =
      subst (λ x. Whenever (λ s'. register_or_execute D s.sched x ≡ done s'.sched) m) own
        (submits (rw own live))

  -- The waker of a live task that is there puts it back, called by reference.
  wake_places :
      (running : ℕ → Option Task) (others : ℕ → ℕ) (wakers : ℕ → ℕ) (s : Arcs Map) (t : Task)
      → Balanced D n running others 1 1 wakers s
      → 0 < wakers t.future
      → s.tasks t.future ≡ t
      → has_aborted s.sched.aborts t ≡ false
      → Returns
          (λ s'.
            Balanced D n running others 0 0 wakers s'
            × Placed D n t (record { sched = s'.sched; running = running }))
          (run D (wakes_by_ref t.future ∷ []) s)
  unfolding perform
  wake_places running others wakers s t b some_held own live =
      call_places (wakes_by_ref t.future) running others wakers s t b some_held live (
        submits_own s t (s.tasks t.future) (wake_by_ref D s t.future) own live
          (wake_by_ref-submits D s t.future))

  -- The same of a waker that is used up.
  pub last_wake_places :
      (running : ℕ → Option Task) (others : ℕ → ℕ) (wakers : ℕ → ℕ) (s : Arcs Map) (t : Task)
      → Balanced D n running others 1 1 wakers s
      → 0 < wakers t.future
      → s.tasks t.future ≡ t
      → has_aborted s.sched.aborts t ≡ false
      → Returns
          (λ s'.
            Balanced D n running others 0 0 (wakers_after (wakes t.future) wakers) s'
            × Placed D n t (record { sched = s'.sched; running = running }))
          (run D (wakes t.future ∷ []) s)
  unfolding perform
  last_wake_places running others wakers s t b some_held own live =
      call_places (wakes t.future) running others wakers s t b some_held live (
        submits_own s t (s.tasks t.future) (wake D s t.future) own live (wake-submits D s t.future))

  -- The tasks of other wakers are submitted before it.
  pub wakes_place :
      (before : List Waker) (running : ℕ → Option Task) (others : ℕ → ℕ) (wakers : ℕ → ℕ)
      (s : Arcs Map) (t : Task)
      → Balanced D n running others (suc (length before)) (suc (length before)) wakers s
      → AreHeld (tag_calls before) wakers
      → 0 < wakers t.future
      → s.tasks t.future ≡ t
      → has_aborted s.sched.aborts t ≡ false
      → Returns
          (λ s'.
            Balanced D n running others 0 0 wakers s'
            × Placed D n t (record { sched = s'.sched; running = running }))
          (run D (tag_calls (before ++ t.future ∷ [])) s)
  unfolding tag_calls run
  wakes_place [] running others wakers s t b held some_held own live =
      wake_places running others wakers s t b some_held own live
  wakes_place (w ∷ before) running others wakers s t b (w_held, held) some_held own live =
      let left = suc (length before) in
      Returns-bind (λ s'. Balanced D n running others left left wakers s' × Same s s') _
        (perform D (wakes_by_ref w) s) (run D (tag_calls (before ++ t.future ∷ [])))
        (Returns-both (Balanced D n running others left left wakers) (Same s)
          (perform D (wakes_by_ref w) s)
          (perform-Balanced D n running others (wakes_by_ref w) left left wakers s b w_held)
          (perform-Keeping D (wakes_by_ref w) s))
        (λ s' (b', (tasks, aborts)).
          wakes_place before running others wakers s' t b' held some_held
            (ap (λ (ts : ℕ → Task). ts t.future) tasks ∙ own)
            (ap (λ (flags : ℕ → Bool). has_aborted flags t) aborts ∙ live))
