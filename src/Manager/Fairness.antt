-- ===== src/Manager/Fairness.antt =====
-- No executor that asks src/task/manager.rs for work overlooks a task that waits.
use hooch.Base.{
  ℕ, suc, ◌+◌, ◌≡◌, ◌≤◌, ◌<◌, ◌⊎◌, inl, inr, subst, some, none, false, List, [], ◌∷◌, ◌++◌,
  append_assoc, length, arith, update, done,
}
use hooch.DashMap.{DashMap}
use hooch.Task.{Task, has_aborted}
use hooch.Manager.{Scheduler, task, executor_ready}
use hooch.Manager.System.{System, Step, submit, receive, ready, abort, Reach, here, later, Inv}
use hooch.Manager.Invariant.{aborts-Inv, received-Inv}
use hooch.Manager.Turn.{submit_behind, ready_takes, append-ne-nil}
use hooch.Manager.Flags.{Step-clear}

module _ (D : DashMap ℕ) (n : ℕ) where
  open D use {Map}

  -- A run with this many requests for work, or more.
  pub data Requests (s : System Map) : ℕ → System Map → Type 0 where
    start : Requests s 0 s
    passes : {k : ℕ} {u v : System Map} → Requests s k u → Step D n u v → Requests s k v
    asks :
        {k : ℕ} {u : System Map} (e : ℕ) (t : Task) {s' : Scheduler Map}
        → Requests s k u
        → e < n
        → u.running e ≡ some t
        → executor_ready D u.sched e ≡ done s'
        → Requests s (suc k) (record { sched = s'; running = update u.running e none })

  -- Between `s` and `u`, the task is alone in the channel of an executor.
  abbrev pub Served : System Map → System Map → Task → Type 0
  Served s u t =
      (e : ℕ) × (e < n)
      × (v : System Map) × Reach D n s v
      × Reach D n v u
      × ((v.sched.channels e).queue ≡ task t ∷ [])

  -- The task `t` waits, behind at most `m` others.
  abbrev Behind : ℕ → Task → System Map → Type 0
  Behind m t u =
      (before : List Task) × (after : List Task) × (is : List ℕ) × (length before ≤ m)
      × Inv D n u (before ++ t ∷ after) is

  Served-later : {s u v : System Map} (t : Task) → Served s u t → Step D n u v → Served s v t
  Served-later t (e, lt, x, to, from, at) step = (e, lt, x, to, later from step, at)

  ready-Behind :
      {s u : System Map} (m : ℕ) (t : Task) (e : ℕ) (p : Task) (s' : Scheduler Map)
      → Reach D n s u
      → Behind m t u
      → e < n
      → u.running e ≡ some p
      → executor_ready D u.sched e ≡ done s'
      → has_aborted u.sched.aborts t ≡ false
      → let v : System Map = record { sched = s'; running = update u.running e none } in
        Served s v t ⊎ ((less : ℕ) × (less < m) × Behind less t v)
  ready-Behind {s} {u} m t e p s' path (before, after, is, le, v) lt at returns live =
      elim (ready_takes D n u before t after is e p s' v lt at returns live) [
        | inl served ↦ inl (e, lt, _, later path (ready e p lt at returns), here, served)
        | inr (before', less, v') ↦
            inr (length before', omega (arith, less, le), (before', after, is, omega arith, v'))
      ]

  step-Behind :
      {s u v : System Map} (m : ℕ) (t : Task)
      → Reach D n s u
      → Behind m t u
      → Step D n u v
      → has_aborted u.sched.aborts t ≡ false
      → Served s v t ⊎ Behind m t v
  step-Behind {u = u} m t path (before, after, is, le, v) (submit p {s'} returns) live =
      let (_, more, is', v') =
        submit_behind D n u (before ++ t ∷ after) is p s' v (append-ne-nil before t after)
          returns in
      inr (
        before,
        after ++ more,
        is',
        le,
        subst (λ ts. Inv D n (record u { sched = s' }) ts is')
            (append_assoc before (t ∷ after) more) v',
      )
  step-Behind {u = u} m t path (before, after, is, le, v) (receive e p {c} lt at got) live =
      inr (before, after, is, le, received-Inv D n u (before ++ t ∷ after) is e p c v lt at got)
  step-Behind m t path behind (ready e p {s'} lt at returns) live =
      elim (ready-Behind m t e p s' path behind lt at returns live) [
        | inl served ↦ inl served
        | inr (less, lt_m, (before, after, is, le, v)) ↦
            inr (before, after, is, omega (arith, le, lt_m), v)
      ]
  step-Behind {u = u} m t path (before, after, is, le, v) (abort a) live =
      inr (before, after, is, le, aborts-Inv D n u (before ++ t ∷ after) is _ v)

  Requests-Reach : {s u : System Map} {k : ℕ} → Requests s k u → Reach D n s u
  Requests-Reach start = here
  Requests-Reach (passes run step) = later (Requests-Reach run) step
  Requests-Reach (asks e t run lt at returns) = later (Requests-Reach run) (ready e t lt at returns)

  -- Each request brings the task that waits nearer to an executor.
  progress :
      {s u : System Map} {k : ℕ} (m : ℕ) (t : Task)
      → Behind m t s
      → Requests s k u
      → has_aborted u.sched.aborts t ≡ false
      → Served s u t ⊎ ((left : ℕ) × (k + left ≤ m) × Behind left t u)
  unfolding has_aborted
  progress m t behind start live = inr (m, omega arith, behind)
  progress m t behind (passes {k} {u} run step) live =
      let clear = Step-clear D n t.abort step live in
      elim (progress m t behind run clear) [
        | inl served ↦ inl (Served-later t served step)
        | inr (left, le, waits) ↦ elim (step-Behind left t (Requests-Reach run) waits step clear) [
          | inl served ↦ inl served
          | inr waits' ↦ inr (left, le, waits')
        ]
      ]
  progress m t behind (asks {k} {u} e p {s'} run lt at returns) live =
      let clear : has_aborted u.sched.aborts t ≡ false =
        Step-clear D n {s = u} t.abort (ready e p lt at returns) live in
      elim (progress m t behind run clear) [
        | inl served ↦ inl (Served-later t served (ready e p lt at returns))
        | inr (left, le, waits) ↦
            elim (ready-Behind left t e p s' (Requests-Reach run) waits lt at returns clear) [
              | inl served ↦ inl served
              | inr (less, lt_left, waits') ↦ inr (less, omega (arith, le, lt_left), waits')
            ]
      ]

  -- With the invariant, let a task wait behind some number of others. In every run of the system,
  -- with whatever submissions, wake-ups, aborts, receptions and requests for work, in which
  -- executors ask for work more often than that and at whose end the task is not aborted, there is
  -- a moment at which the task is alone in the channel of an executor.
  pub served_in_turn :
      (s u : System Map) (k : ℕ) (before : List Task) (t : Task) (after : List Task) (is : List ℕ)
      → Inv D n s (before ++ t ∷ after) is
      → Requests s k u
      → has_aborted u.sched.aborts t ≡ false
      → length before < k
      → Served s u t
  served_in_turn s u k before t after is v run live enough =
      elim (progress (length before) t (before, after, is, omega arith, v) run live) [
        | inl served ↦ served
        | inr (left, le, waits) ↦ absurd (omega (arith, le, enough))
      ]
