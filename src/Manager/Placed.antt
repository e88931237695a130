-- ===== src/Manager/Placed.antt =====
-- Where src/task/manager.rs puts a live task that is submitted, and what becomes of it.
use hooch.Base.{
  ℕ, ◌≡◌, ◌<◌, ◌⊎◌, inl, inr, refl, true, false, ◌==◌, List, [], ◌∷◌, ◌++◌, count-cons, arith, done,
  Returns-done,
}
use hooch.DashMap.{DashMap}
use hooch.Task.{Task, has_aborted}
use hooch.Manager.{Scheduler, task, register_or_execute}
use hooch.Manager.Submit.{submit_sends}
use hooch.Manager.System.{System, Inv}
use hooch.Manager.Invariant.{IsOpen-of_idle}
use hooch.Manager.Turn.{with_task-alone, live_behind}

module _ (D : DashMap ℕ) (n : ℕ) where
  open D use {Map}

  -- The task is alone in the channel of an executor, or it waits.
  abbrev pub Placed : Task → System Map → Type 0
  Placed t u =
      ((e : ℕ) × (e < n) × ((u.sched.channels e).queue ≡ task t ∷ []))
      ⊎ ((before : List Task) × (after : List Task) × (is : List ℕ) × Inv D n u
            (before ++ t ∷ after) is)

  pub submit-Placed :
      (s : System Map) (ws : List Task) (is : List ℕ) (t : Task) (s' : Scheduler Map)
      → Inv D n s ws is
      → has_aborted s.sched.aborts t ≡ false
      → register_or_execute D s.sched t ≡ done s'
      → Placed t (record s { sched = s' })
  submit-Placed s ws [] t s' v live returns =
      let (_, v') = live_behind D n s ws t s' v live returns in inr (ws, [], [], v')
  submit-Placed s ws (e ∷ is) t s' v live returns =
      let (_, _, channels) =
        Returns-done _ (register_or_execute D s.sched t) returns
          (submit_sends D s.sched ws e is e t live v.waits (IsOpen-of_idle D n s ws e is v)) in
      let lt : e < n = v.below.0 in
      let alone =
        with_task-alone (s.sched.channels e) t _ refl
          (ground (arith, v.one_place e lt, count-cons e e is)) in
      let same : (e == e) ≡ true = ground arith in inl (e, lt, rw (channels, same) alone)
