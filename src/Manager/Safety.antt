-- ===== src/Manager/Safety.antt =====
-- What holds in every state that the executors and the `TaskManager` (src/task/manager.rs) reach.
use hooch.Base.{
  ℕ, ◌≡◌, ◌≢◌, ◌<◌, ◌⊎◌, inl, inr, refl, sym, ◌∙◌, subst, false, Bool-cases, some, List, [], ◌∷◌,
  ◌++◌, length, arith, ltb, ap, none, update, done, panicked, Returns, Returns-done, Returns-map,
}
use hooch.DashMap.{DashMap}
use hooch.Task.{Task, has_aborted}
use hooch.Manager.{Scheduler, waiting_bound, executor_ready, register_or_execute}
use hooch.Manager.Waits.{Keeps}
use hooch.Manager.Ready.{skip_aborted, skip_aborted-nil, AfterReady, executor_ready_lem}
use hooch.Manager.Submit.{submit_dead, submit-Waits, submit_overflows, submit_sends}
use hooch.Manager.System.{System, Step, submit, receive, ready, abort, Reach, here, later, Inv}
use hooch.Manager.Invariant.{
  aborts-Inv, IsOpen-of_idle, IsOpen-of_running, sent-Inv, queued-Inv, parked-Inv, handed-Inv,
  received-Inv,
}

module _ (D : DashMap ℕ) (n : ℕ) where
  open D use {Map}

  -- The invariant holds, for some tasks and some executors that wait.
  abbrev pub Preserved : System Map → Type 0
  Preserved s = (ws : List Task) × (is : List ℕ) × Inv D n s ws is

  submit_live-Inv :
      (s : System Map) (ws : List Task) (is : List ℕ) (t : Task) (s' : Scheduler Map)
      → Inv D n s ws is
      → has_aborted s.sched.aborts t ≡ false
      → register_or_execute D s.sched t ≡ done s'
      → Preserved (record s { sched = s' })
  submit_live-Inv s ws [] t s' v live e = elim (Bool-cases (ltb (length ws) waiting_bound)) [
    | inl room ↦
        let (kept, waits, channels) =
          Returns-done _ (register_or_execute D s.sched t) e
            (submit-Waits D s.sched ws t live v.waits (ground arith)) in
        (ws ++ t ∷ [], [], queued-Inv D n s ws t s' v kept waits channels)
    | inr full ↦
        let stops : register_or_execute D s.sched t ≡ panicked =
          submit_overflows D s.sched ws t live v.waits
            (ground (arith, v.waits.tasks.fits, v.waits.tasks_bound)) in
        absurd (cc (sym e ∙ stops))
  ]
  submit_live-Inv s ws (x ∷ is) t s' v live e =
      let (kept, waits, channels) =
        Returns-done _ (register_or_execute D s.sched t) e
          (submit_sends D s.sched ws x is x t live v.waits (IsOpen-of_idle D n s ws x is v)) in
      (ws, is, sent-Inv D n s ws x is t s' v kept waits channels)

  submit-Inv :
      (s : System Map) (ws : List Task) (is : List ℕ) (t : Task) (s' : Scheduler Map)
      → Inv D n s ws is
      → register_or_execute D s.sched t ≡ done s'
      → Preserved (record s { sched = s' })
  submit-Inv s ws is t s' v e = elim (Bool-cases (has_aborted s.sched.aborts t)) [
    | inl dead ↦
        let same : s.sched ≡ s' = cc (submit_dead D s.sched t dead) in
        subst (λ x. Preserved (record s { sched = x })) same (ws, is, v)
    | inr live ↦ submit_live-Inv s ws is t s' v live e
  ]

  ready_at-Inv :
      (s : System Map) (ws : List Task) (is : List ℕ) (e : ℕ) (t : Task) (s' : Scheduler Map)
      (ts : List Task)
      → Inv D n s ws is
      → e < n
      → s.running e ≡ some t
      → skip_aborted s.sched.aborts ws ≡ ts
      → Keeps D s.sched s'
      → AfterReady D s.sched.channels is e e ts s'
      → Preserved (record { sched = s'; running = update s.running e none })
  ready_at-Inv s ws is e t s' [] v lt at skipped kept (waits, channels) =
      ([], is ++ e ∷ [], parked-Inv D n s ws is e t s' v lt at kept waits channels)
  ready_at-Inv s ws is e t s' (u ∷ rest) v lt at skipped kept (waits, channels) =
      (rest, is, handed-Inv D n s ws rest is e t u s' v lt at some_waited kept waits channels)
    where
      some_waited : ws ≢ []
      some_waited none_did = cc (
        ap (skip_aborted s.sched.aborts) (sym none_did) ∙ skipped,
        skip_aborted-nil s.sched.aborts,
      )

  ready-Inv :
      (s : System Map) (ws : List Task) (is : List ℕ) (e : ℕ) (t : Task) (s' : Scheduler Map)
      → Inv D n s ws is
      → e < n
      → s.running e ≡ some t
      → executor_ready D s.sched e ≡ done s'
      → Preserved (record { sched = s'; running = update s.running e none })
  ready-Inv s ws is e t s' v lt at returns =
      let (open_to, room) = IsOpen-of_running D n s ws is e t v lt at in
      let (kept, after) =
        Returns-done _ (executor_ready D s.sched e) returns
          (executor_ready_lem D s.sched ws is e e v.waits open_to room) in
      ready_at-Inv s ws is e t s' _ v lt at refl kept after

  -- One step of the system, whoever makes it, keeps the invariant.
  pub Step-Inv :
      {s u : System Map} (ws : List Task) (is : List ℕ)
      → Step D n s u
      → Inv D n s ws is
      → Preserved u
  Step-Inv {s} ws is (submit t {s'} e) v = submit-Inv s ws is t s' v e
  Step-Inv {s} ws is (receive e t {c} lt at got) v =
      (ws, is, received-Inv D n s ws is e t c v lt at got)
  Step-Inv {s} ws is (ready e t {s'} lt at returns) v = ready-Inv s ws is e t s' v lt at returns
  Step-Inv {s} ws is (abort a) v = (ws, is, aborts-Inv D n s ws is _ v)

  -- Let n executors, at most 128000 of them, be registered, each with a channel of its own that has
  -- room and a receiver. Whatever sequence of submissions, wake-ups, aborts, receptions and
  -- requests for work the system goes through from a state with the invariant, it keeps the
  -- invariant: each executor stands in exactly one place (it waits in the manager, has one task in
  -- its channel, or polls one), and tasks and executors never both wait.
  pub Reach-Inv :
      {s u : System Map} (ws : List Task) (is : List ℕ)
      → Inv D n s ws is
      → Reach D n s u
      → Preserved u
  Reach-Inv ws is v here = (ws, is, v)
  Reach-Inv ws is v (later r m) = let (ws', is', v') = Reach-Inv ws is v r in Step-Inv ws' is' m v'

  -- How a submission ends: it returns and keeps the invariant, or it panics since a live task finds
  -- no executor that waits and no room to wait in itself.
  abbrev pub Submitted : System Map → List Task → List ℕ → Task → Type 0
  Submitted s ws is t =
      Returns (λ s'. Preserved (record s { sched = s' })) (register_or_execute D s.sched t)
      ⊎ ((register_or_execute D s.sched t ≡ panicked)
          × (has_aborted s.sched.aborts t ≡ false)
          × (is ≡ [])
          × (length ws ≡ waiting_bound))

  submit_live_ends :
      (s : System Map) (ws : List Task) (is : List ℕ) (t : Task)
      → Inv D n s ws is
      → has_aborted s.sched.aborts t ≡ false
      → Submitted s ws is t
  submit_live_ends s ws [] t v live = elim (Bool-cases (ltb (length ws) waiting_bound)) [
    | inl room ↦ inl (
        Returns-map _ _ (register_or_execute D s.sched t)
          (submit-Waits D s.sched ws t live v.waits (ground arith))
          (λ s' e _. submit_live-Inv s ws [] t s' v live e))
    | inr crowded ↦
        let full : length ws ≡ waiting_bound =
          ground (arith, v.waits.tasks.fits, v.waits.tasks_bound) in
        inr (submit_overflows D s.sched ws t live v.waits full, live, refl, full)
  ]
  submit_live_ends s ws (x ∷ is) t v live = inl (
      Returns-map _ _ (register_or_execute D s.sched t)
        (submit_sends D s.sched ws x is x t live v.waits (IsOpen-of_idle D n s ws x is v))
        (λ s' e _. submit_live-Inv s ws (x ∷ is) t s' v live e))

  -- With the invariant, a submission ends in one of two ways. It returns, and keeps the invariant.
  -- Or it panics: then the task is live, no executor waits, and 128000 tasks wait already. It never
  -- waits.
  pub submit_ends :
      (s : System Map) (ws : List Task) (is : List ℕ) (t : Task)
      → Inv D n s ws is
      → Submitted s ws is t
  submit_ends s ws is t v = elim (Bool-cases (has_aborted s.sched.aborts t)) [
    | inl dead ↦ inl (rw (submit_dead D s.sched t dead) (ws, is, v))
    | inr live ↦ submit_live_ends s ws is t v live
  ]

  -- With the invariant, an executor that has polled its task and asks for the next one always gets
  -- its call back: `executor_ready` neither panics nor waits, and the invariant holds afterwards.
  pub ready_ends :
      (s : System Map) (ws : List Task) (is : List ℕ) (e : ℕ) (t : Task)
      → Inv D n s ws is
      → e < n
      → s.running e ≡ some t
      → Returns
          (λ s'. Preserved (record { sched = s'; running = update s.running e none }))
          (executor_ready D s.sched e)
  ready_ends s ws is e t v lt at =
      let (open_to, room) = IsOpen-of_running D n s ws is e t v lt at in
      Returns-map _ _ (executor_ready D s.sched e)
        (executor_ready_lem D s.sched ws is e e v.waits open_to room)
        (λ s' returns _. ready-Inv s ws is e t s' v lt at returns)

  -- With the invariant, the calls of the manager come to an end. An executor that has polled its
  -- task and asks for the next one always gets its call back: `executor_ready` neither panics nor
  -- waits, and the invariant holds afterwards. A submission returns as well, and keeps the
  -- invariant, or it panics: then the task is live, no executor waits, and 128000 tasks wait
  -- already. It never waits.
  pub calls_end :
      (s : System Map) (ws : List Task) (is : List ℕ) (e : ℕ) (t u : Task)
      → Inv D n s ws is
      → e < n
      → s.running e ≡ some t
      → Returns
          (λ s'. Preserved (record { sched = s'; running = update s.running e none }))
          (executor_ready D s.sched e)
        × Submitted s ws is u
  calls_end s ws is e t u v lt at = (ready_ends s ws is e t v lt at, submit_ends s ws is u v)
