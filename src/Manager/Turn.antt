-- ===== src/Manager/Turn.antt =====
-- How a step of `Manager/System` changes the tasks that wait in a `TaskManager` (src/task/manager.rs).
use hooch.Base.{
  append-nil, ◌==◌, ℕ, suc, ◌≡◌, ◌≢◌, ◌<◌, ◌⊎◌, inl, inr, refl, sym, ap, subst, ◌∙◌, Bool, true,
  false, Bool-cases, some, none, List, [], ◌∷◌, ◌++◌, length, length-append, arith, ltb, update,
  done, panicked, Returns-done,
}
use hooch.DashMap.{DashMap}
use hooch.Task.{Task, has_aborted}
use hooch.Manager.{
  Scheduler, ExecutorTask, task, waiting_bound, executor_ready, register_or_execute,
}
use hooch.Manager.Waits.{Keeps, with_task}
use hooch.SyncChannel.{SyncChannel}
use hooch.Manager.Ready.{
  skip_aborted, skip_aborted-cons_dead, skip_aborted-cons_live, AfterReady, executor_ready_lem,
}
use hooch.Manager.Submit.{submit_dead, submit-Waits, submit_overflows}
use hooch.Manager.System.{System, Inv}
use hooch.Manager.Invariant.{IsOpen-of_running, queued-Inv, handed-Inv}

-- `t` is the first of the tasks `ts`, or some other task is, and fewer than `m` tasks stand between.
abbrev pub Next : ℕ → Task → List Task → List Task → Type 0
Next m t after ts =
    (ts ≡ t ∷ after)
    ⊎ ((u : Task) × (before : List Task) × (length before < m) × (ts ≡ u ∷ (before ++ t ∷ after)))

Next-suc : (m : ℕ) (t : Task) (after ts : List Task) → Next m t after ts → Next (suc m) t after ts
Next-suc m t after ts (inl first) = inl first
Next-suc m t after ts (inr (u, before, lt, e)) = inr (u, before, omega (arith, lt), e)

-- Of tasks that wait, a request for work finds a live one or one before it.
skip_aborted-Next :
    (aborts : ℕ → Bool) (before : List Task) (t : Task) (after : List Task)
    → has_aborted aborts t ≡ false
    → Next (length before) t after (skip_aborted aborts (before ++ t ∷ after))
skip_aborted-Next aborts [] t after live = inl (skip_aborted-cons_live aborts t after live)
skip_aborted-Next aborts (u ∷ before) t after live = elim (Bool-cases (has_aborted aborts u)) [
  | inl dead ↦
      subst (Next (suc (length before)) t after)
        (sym (skip_aborted-cons_dead aborts u (before ++ t ∷ after) dead))
        (Next-suc (length before) t after _ (skip_aborted-Next aborts before t after live))
  | inr lives ↦
      inr (u, before, omega arith, skip_aborted-cons_live aborts u (before ++ t ∷ after) lives)
]

-- A task sent to an empty channel is alone there.
pub with_task-alone :
    (c : SyncChannel ExecutorTask) (t : Task) (q : List ExecutorTask)
    → c.queue ≡ q
    → length c.queue ≡ 0
    → (with_task c t).queue ≡ task t ∷ []
with_task-alone c t [] at empty = rw at refl
with_task-alone c t (u ∷ q) at empty = ground (arith, at, empty)

pub append-ne-nil : (before : List Task) (t : Task) (after : List Task) → before ++ t ∷ after ≢ []
append-ne-nil before t after e =
    ground (arith, ap (λ (ts : List Task). length ts) e, length-append before (t ∷ after))

module _ (D : DashMap ℕ) (n : ℕ) where
  open D use {Map}

  -- A live task that is submitted while no executor waits is the last to wait.
  pub live_behind :
      (s : System Map) (ws : List Task) (t : Task) (s' : Scheduler Map)
      → Inv D n s ws []
      → has_aborted s.sched.aborts t ≡ false
      → register_or_execute D s.sched t ≡ done s'
      → Keeps D s.sched s' × Inv D n (record s { sched = s' }) (ws ++ t ∷ []) []
  live_behind s ws t s' v live returns = elim (Bool-cases (ltb (length ws) waiting_bound)) [
    | inl room ↦
        let (kept, waits, channels) =
          Returns-done _ (register_or_execute D s.sched t) returns
            (submit-Waits D s.sched ws t live v.waits (ground arith)) in
        (kept, queued-Inv D n s ws t s' v kept waits channels)
    | inr full ↦
        let stops : register_or_execute D s.sched t ≡ panicked =
          submit_overflows D s.sched ws t live v.waits
            (ground (arith, v.waits.tasks.fits, v.waits.tasks_bound)) in
        absurd (cc (sym returns ∙ stops))
  ]

  -- A submission while tasks wait puts its task behind them, or drops it.
  pub submit_behind :
      (s : System Map) (ws : List Task) (is : List ℕ) (t : Task) (s' : Scheduler Map)
      → Inv D n s ws is
      → ws ≢ []
      → register_or_execute D s.sched t ≡ done s'
      → Keeps D s.sched s'
        × (more : List Task) × (is' : List ℕ) × Inv D n (record s { sched = s' }) (ws ++ more) is'
  submit_behind s ws is t s' v some_wait returns =
      elim (Bool-cases (has_aborted s.sched.aborts t)) [
        | inl dead ↦
            let same : s.sched ≡ s' = cc (submit_dead D s.sched t dead, returns) in
            (
              (
                ap (λ (x : Scheduler Map). x.aborts) (sym same),
                ap (λ (x : Scheduler Map). x.manager.executors) (sym same),
              ),
              [],
              is,
              subst (λ x. Inv D n (record s { sched = x }) (ws ++ []) is) same
                  (subst (λ ts. Inv D n s ts is) (sym (append-nil ws)) v),
            )
        | inr live ↦ elim v.conserving [
          | inl none_waits ↦ absurd (some_wait none_waits)
          | inr none_idle ↦
              let (kept, v') =
                live_behind s ws t s' (subst (λ xs. Inv D n s ws xs) none_idle v) live returns in
              (kept, t ∷ [], [], v')
        ]
      ]

  -- A request for work when a live task waits.
  pub ready_takes :
      (s : System Map) (before : List Task) (t : Task) (after : List Task) (is : List ℕ) (e : ℕ)
      (p : Task) (s' : Scheduler Map)
      → Inv D n s (before ++ t ∷ after) is
      → e < n
      → s.running e ≡ some p
      → executor_ready D s.sched e ≡ done s'
      → has_aborted s.sched.aborts t ≡ false
      → ((s'.channels e).queue ≡ task t ∷ [])
        ⊎ ((before' : List Task) × (length before' < length before)
            × Inv D n
                (record { sched = s'; running = update s.running e none })
                (before' ++ t ∷ after)
                is)
  ready_takes s before t after is e p s' v lt at returns live =
      let (open_to, room) = IsOpen-of_running D n s (before ++ t ∷ after) is e p v lt at in
      let (kept, left) =
        Returns-done _ (executor_ready D s.sched e) returns
          (executor_ready_lem D s.sched (before ++ t ∷ after) is e e v.waits open_to room) in
      elim (skip_aborted-Next s.sched.aborts before t after live) [
        | inl first ↦
            let (_, channels) =
              subst (λ ts. AfterReady D s.sched.channels is e e ts s') first left in
            let alone : (with_task (s.sched.channels e) t).queue ≡ task t ∷ [] =
              with_task-alone (s.sched.channels e) t _ refl (ground (arith, v.one_place e lt)) in
            let here : (e == e) ≡ true = ground arith in inl (rw (channels, here) alone)
        | inr (u, before', less, rest) ↦
            let (waits, channels) =
              subst (λ ts. AfterReady D s.sched.channels is e e ts s') rest left in
            inr (
              before',
              less,
              handed-Inv D n s (before ++ t ∷ after) (before' ++ t ∷ after) is e p u s' v lt at
                  (append-ne-nil before t after) kept waits channels,
            )
      ]
