-- ===== src/Waker/Kept.antt =====
-- No call of src/task/task.rs or src/executor.rs gives an `Arc<Task>` another task, and a wake-up submits
-- the task to src/task/manager.rs.
use hooch.Base.{
  Whenever-if, Whenever-returned, ℕ, zero, suc, ◌≡◌, refl, subst, Bool, true, false, Bool-cases,
  inl, inr, ltb, ◌==◌, ◌+◌, update, List, [], ◌∷◌, Option, none, some, Exec, done, ◌>>=◌, Whenever,
  Whenever-bind, Whenever-then, ◌∙◌, Result, ok, err,
}
use hooch.Ring
use hooch.SyncChannel
use hooch.SyncChannel.{RecvError}
use hooch.DashMap.{DashMap}
use hooch.Task.{Task, has_aborted}
use hooch.Manager.{
  Scheduler, ExecutorTask, task, finished, with_tasks, wait_for_task, send_task,
  register_or_execute,
}
use hooch.Manager.Flags.{SameFlags, send_task-SameFlags, wait_for_task-SameFlags, submit-SameFlags}
use hooch.Waker.{
  Arcs, max_references, arc_clone, arc_drop, clone, drop, hand_over, wake, wake_by_ref,
}
use hooch.Waker.Ops.{WakerOp, clones, drops, wakes, wakes_by_ref, perform, run}
use hooch.Waker.Rounds.{ready_loop, executor_ready, forward_task, round}

module _ {M : Type 0} where
  -- The tasks are those of `s`, with the same abort flags.
  abbrev pub Same : Arcs M → Arcs M → Type 0
  Same s s' = (s'.tasks ≡ s.tasks) × (s'.sched.aborts ≡ s.sched.aborts)

  abbrev pub Keeping : Arcs M → Exec (Arcs M) → Type 0
  Keeping s m = Whenever (Same s) m

  Same-Keeping : (s s' : Arcs M) (m : Exec (Arcs M)) → Same s s' → Keeping s' m → Keeping s m
  Same-Keeping s s' m (tasks, aborts) h =
      subst (λ ts. Whenever (λ x. (x.tasks ≡ ts) × (x.sched.aborts ≡ s.sched.aborts)) m) tasks
        (subst (λ fs. Whenever (λ x. (x.tasks ≡ s'.tasks) × (x.sched.aborts ≡ fs)) m) aborts h)

  Keeping-then :
      (s : Arcs M) (m : Exec (Arcs M)) (f : Arcs M → Exec (Arcs M))
      → Keeping s m
      → ((s' : Arcs M) → Keeping s' (f s'))
      → Keeping s (m >>= f)
  Keeping-then s m f first next =
      Whenever-bind (Same s) _ m f first (λ s' same. Same-Keeping s s' (f s') same (next s'))

  clone-Keeping : (s : Arcs M) (ptr : ℕ) → Keeping s (arc_clone s ptr)
  unfolding arc_clone
  clone-Keeping s ptr =
      Whenever-if _ (s.strong ptr == 0) _ _ tt
        (Whenever-if _ (ltb max_references (s.strong ptr)) _ _ tt (refl, refl))

  drop-Keeping : (s : Arcs M) (ptr : ℕ) → Keeping s (arc_drop s ptr)
  unfolding arc_drop
  drop-Keeping s ptr = Whenever-if _ (s.strong ptr == 0) _ _ tt (refl, refl)

module _ (D : DashMap ℕ) where
  open D use {Map}

  hand_over-Keeping : (s : Arcs Map) (ptr : ℕ) → Keeping s (hand_over D s ptr)
  unfolding hand_over
  hand_over-Keeping s ptr =
      Whenever-bind (λ sched. sched.aborts ≡ s.sched.aborts) _
        (register_or_execute D s.sched (s.tasks ptr)) _ (submit-SameFlags D s.sched (s.tasks ptr))
        (λ sched flags.
          let s' = record s { sched = sched } in
          Whenever-if _ (has_aborted s.sched.aborts (s.tasks ptr)) _ _
            (Same-Keeping s s' _ (refl, flags) (drop-Keeping s' ptr)) (refl, flags))

  pub perform-Keeping : (op : WakerOp) (s : Arcs Map) → Keeping s (perform D op s)
  unfolding perform clone drop wake wake_by_ref
  perform-Keeping (clones ptr) s =
      Whenever-bind (λ (x : ℕ × Arcs Map). Same s x.1) _ (clone s ptr) _
        (Whenever-bind (Same s) _ (arc_clone s ptr) _ (clone-Keeping s ptr) (λ s' same. same))
        (λ x same. same)
  perform-Keeping (drops ptr) s = drop-Keeping s ptr
  perform-Keeping (wakes ptr) s =
      Whenever-if _ (s.strong ptr == 0) _ _ tt
        (Whenever-if _ s.manager_alive _ _ (hand_over-Keeping s ptr) tt)
  perform-Keeping (wakes_by_ref ptr) s = Whenever-if _ (s.strong ptr == 0) _ _ tt (
      Whenever-if _ s.manager_alive _ _
        (Keeping-then s (arc_clone s ptr) _ (clone-Keeping s ptr) (λ s'. hand_over-Keeping s' ptr))
        tt)

  run-Keeping : (ops : List WakerOp) (s : Arcs Map) → Keeping s (run D ops s)
  unfolding run
  run-Keeping [] s = (refl, refl)
  run-Keeping (op ∷ ops) s =
      Keeping-then s (perform D op s) _ (perform-Keeping op s) (run-Keeping ops)

  -- Calls of the manager.
  scheduled-Keeping :
      (s s' : Arcs Map) (m : Exec (Scheduler Map))
      → Same s s'
      → SameFlags D s'.sched m
      → Keeping s (do sched ← m; done (record s' { sched = sched }))
  scheduled-Keeping s s' m (tasks, aborts) flags =
      Whenever-bind (λ sched. sched.aborts ≡ s'.sched.aborts) (Same s) m _ flags
        (λ sched same. (tasks, same ∙ aborts))

  dropped-Keeping :
      (s s' : Arcs Map) (e : ℕ) (again : Arcs Map → Exec (Arcs Map)) (t : Task) (dead : Bool)
      → Same s s'
      → ((s'' : Arcs Map) → Keeping s'' (again s''))
      → Keeping s (elim dead [
        | true ↦ (do s'' ← arc_drop s' t.future; again s'')
        | false ↦ (do sched ← send_task D s'.sched e t; done (record s' { sched = sched }))
      ])
  dropped-Keeping s s' e again t true same h =
      Same-Keeping s s' _ same
        (Keeping-then s' (arc_drop s' t.future) again (drop-Keeping s' t.future) h)
  dropped-Keeping s s' e again t false same h =
      scheduled-Keeping s s' _ same (send_task-SameFlags D s'.sched e t)

  taken-Keeping :
      (s s' : Arcs Map) (e : ℕ) (again : Arcs Map → Exec (Arcs Map)) (next : Option Task)
      → Same s s'
      → ((s'' : Arcs Map) → Keeping s'' (again s''))
      → Keeping s (elim next [
        | none ↦ (do sched ← wait_for_task D s'.sched e; done (record s' { sched = sched }))
        | some t ↦ elim (has_aborted s.sched.aborts t) [
          | true ↦ (do s'' ← arc_drop s' t.future; again s'')
          | false ↦ (do sched ← send_task D s'.sched e t; done (record s' { sched = sched }))
        ]
      ])
  taken-Keeping s s' e again none same h =
      scheduled-Keeping s s' _ same (wait_for_task-SameFlags D s'.sched e)
  taken-Keeping s s' e again (some t) same h =
      dropped-Keeping s s' e again t (has_aborted s.sched.aborts t) same h

  loop-Keeping : (rounds : ℕ) (s : Arcs Map) (e : ℕ) → Keeping s (ready_loop D rounds s e)
  unfolding ready_loop
  loop-Keeping zero s e = tt
  loop-Keeping (suc rounds) s e =
      Whenever-then _ (Ring.pop s.sched.manager.waiting_tasks) _ (λ popped.
        taken-Keeping s (record s { sched = with_tasks s.sched popped.1 }) e _ popped.0 (refl, refl)
          (λ s''. loop-Keeping rounds s'' e))

  ready-Keeping : (s : Arcs Map) (e : ℕ) → Keeping s (executor_ready D s e)
  unfolding executor_ready
  ready-Keeping s e = loop-Keeping _ s e

  forward-Keeping :
      (ops : List WakerOp) (s : Arcs Map) (ptr : ℕ) → Keeping s (forward_task D ops s ptr)
  unfolding forward_task
  forward-Keeping ops s ptr = Keeping-then s (arc_clone s ptr) _ (clone-Keeping s ptr) (λ s1.
      Keeping-then s1 (run D ops s1) _ (run-Keeping ops s1) (λ s2.
        Keeping-then s2 (arc_drop s2 ptr) _ (drop-Keeping s2 ptr) (λ s3. drop-Keeping s3 ptr)))

  pub round-Keeping : (e : ℕ) (ops : List WakerOp) (s : Arcs Map) → Keeping s (round D e ops s)
  unfolding round
  round-Keeping e ops s = Whenever-then _ (SyncChannel.recv (s.sched.channels e)) _ (λ got.
      received got.0
        (record s { sched = record (s.sched) { channels = update s.sched.channels e got.1 } })
        (refl, refl))
    where
      received :
          (got : Result ExecutorTask RecvError) (s' : Arcs Map)
          → Same s s'
          → Keeping s (elim got [
            | err e ↦ done s'
            | ok finished ↦ done s'
            | ok (task t) ↦ (do s'' ← forward_task D ops s' t.future; executor_ready D s'' e)
          ])
      received (err _) s' same = same
      received (ok finished) s' same = same
      received (ok (task t)) s' same = Same-Keeping s s' _ same (
          Keeping-then s' (forward_task D ops s' t.future) _ (forward-Keeping ops s' t.future)
            (λ s''. ready-Keeping s'' e))

  hand_over-submits :
      (s : Arcs Map) (ptr : ℕ)
      → has_aborted s.sched.aborts (s.tasks ptr) ≡ false
      → Whenever
          (λ s'. register_or_execute D s.sched (s.tasks ptr) ≡ done s'.sched)
          (hand_over D s ptr)
  unfolding hand_over
  hand_over-submits s ptr live =
      Whenever-returned _ (register_or_execute D s.sched (s.tasks ptr)) _
        (λ sched returns. rw live returns)

  -- A waker of a live task submits it.
  pub wake_by_ref-submits :
      (s : Arcs Map) (ptr : ℕ)
      → has_aborted s.sched.aborts (s.tasks ptr) ≡ false
      → Whenever
          (λ s'. register_or_execute D s.sched (s.tasks ptr) ≡ done s'.sched)
          (wake_by_ref D s ptr)
  unfolding wake_by_ref arc_clone
  wake_by_ref-submits s ptr live = Whenever-if _ (s.strong ptr == 0) _ _ tt (
      Whenever-if _ s.manager_alive _ _
        (elim (Bool-cases (s.strong ptr == 0)) [
          | inl gone ↦ rw gone tt
          | inr there ↦ rw there (elim (Bool-cases (ltb max_references (s.strong ptr))) [
            | inl many ↦ rw many tt
            | inr few ↦ rw few (
                hand_over-submits (record s { strong = update s.strong ptr (s.strong ptr + 1) }) ptr
                  live)
          ])
        ])
        tt)

  pub wake-submits :
      (s : Arcs Map) (ptr : ℕ)
      → has_aborted s.sched.aborts (s.tasks ptr) ≡ false
      → Whenever (λ s'. register_or_execute D s.sched (s.tasks ptr) ≡ done s'.sched) (wake D s ptr)
  unfolding wake
  wake-submits s ptr live =
      Whenever-if _ (s.strong ptr == 0) _ _ tt
        (Whenever-if _ s.manager_alive _ _ (hand_over-submits s ptr live) tt)
