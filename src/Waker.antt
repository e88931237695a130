-- ===== src/Waker.antt =====
-- src/task/task.rs, `Task::waker` and the functions of `Task::WAKER_VTABLE`: the references to a task
-- that its wakers hold.
pub mod Ops
pub mod Handing
pub mod Balance
pub mod Rounds
pub mod Asking
pub mod Holding
pub mod Kept
use hooch.Base.{
  ℕ, ◌+◌, ◌-◌, ◌%◌, ◌^◌, Bool, true, false, ◌==◌, ltb, if◌then◌else◌, update, usize_size, Exec,
  done, panicked, undefined, ◌>>=◌,
}
use hooch.DashMap.{DashMap}
use hooch.Task.{Task, has_aborted}
use hooch.Manager.{Scheduler, register_or_execute}

-- The `Arc<Task>`s by their pointers: `strong` counts the references to each, and 0 says that the
-- task is freed. `manager_alive` tells whether `Weak<TaskManager>` can be upgraded.
pub record Arcs (M : Type 0) : Type 0 where
  pub sched : Scheduler M
  pub strong : ℕ → ℕ
  pub tasks : ℕ → Task
  pub manager_alive : Bool

-- `Arc::clone` ends the process when there are more references than `isize::MAX`.
abbrev pub max_references : ℕ
max_references = 2 ^ 63 - 1

module _ {M : Type 0} where
  -- `Arc::clone`. To reach for a task that is freed is undefined behaviour.
  unfoldable pub arc_clone : Arcs M → ℕ → Exec (Arcs M)
  arc_clone s ptr =
      if s.strong ptr == 0
      then undefined
      else if ltb max_references (s.strong ptr)
      then panicked
      else done (record s { strong = update s.strong ptr (s.strong ptr + 1) })

  -- The drop of an `Arc`.
  unfoldable pub arc_drop : Arcs M → ℕ → Exec (Arcs M)
  arc_drop s ptr =
      if s.strong ptr == 0
      then undefined
      else done (record s { strong = update s.strong ptr (s.strong ptr - 1) })

  -- `Task::waker`: `Arc::into_raw` makes the reference the waker's.
  unfoldable pub waker : Arcs M → ℕ → ℕ × Arcs M
  waker s ptr = (ptr, s)

  -- `clone`, whose `original` is forgotten.
  unfoldable pub clone : Arcs M → ℕ → Exec (ℕ × Arcs M)
  clone s ptr = do s' ← arc_clone s ptr; done (ptr, s')

  -- `drop`.
  unfoldable pub drop : Arcs M → ℕ → Exec (Arcs M)
  drop s ptr = arc_drop s ptr

module _ (D : DashMap ℕ) where
  open D use {Map}

  -- The submission of a task takes a reference over: into a queue or, if the task has been aborted,
  -- to drop it.
  unfoldable pub hand_over : Arcs Map → ℕ → Exec (Arcs Map)
  hand_over s ptr =
      let t = s.tasks ptr in
      do
        sched ← register_or_execute D s.sched t
        let s' = record s { sched = sched }
        if has_aborted s.sched.aborts t then arc_drop s' ptr else done s'

  -- `wake`. The waker's reference is the one that is handed over.
  unfoldable pub wake : Arcs Map → ℕ → Exec (Arcs Map)
  wake s ptr =
      if s.strong ptr == 0 then undefined else if s.manager_alive then hand_over s ptr else panicked

  -- `wake_by_ref`, whose own `arc` is forgotten.
  unfoldable pub wake_by_ref : Arcs Map → ℕ → Exec (Arcs Map)
  wake_by_ref s ptr =
      if s.strong ptr == 0
      then undefined
      else if s.manager_alive
      then (do s' ← arc_clone s ptr; hand_over s' ptr)
      else panicked
