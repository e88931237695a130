-- ===== src/Spawner/Aborts.antt =====
-- What becomes of a task once `JoinHandle::abort` (src/spawner.rs) has set its flag.
use hooch.Base.{
  ℕ, ◌+◌, ◌≡◌, ◌≤◌, refl, ap, ◌∙◌, true, Bool-cases, inl, inr, List, [], ◌∷◌, arith, ◌==◌, subst,
  done, ok, Whenever, Whenever-done, Exec,
}
use hooch.SyncChannel
use hooch.SyncChannel.{SyncChannel}
use hooch.DashMap.{DashMap}
use hooch.Task.{Task}
use hooch.Manager.{Scheduler, ExecutorTask, task, finished, executor_ready, register_or_execute}
use hooch.Manager.Flags.{submit-SameFlags, ready-SameFlags}
use hooch.Manager.Aborted.{one_of, flagged, at_executor, NoMore, submit-NoMore, ready-NoMore}
use hooch.Manager.System.{System, Step, submit, receive, ready, abort, Reach, here, later}
use hooch.Spawner
use hooch.Spawner.{JoinHandle}

-- The task that `recv` hands out is one less in the channel.
recv-flagged :
    (a : ℕ) (c c' : SyncChannel ExecutorTask) (t : Task) (q : List ExecutorTask)
    → c.queue ≡ q
    → SyncChannel.recv c ≡ done (ok (task t), c')
    → one_of a t + flagged a c'.queue ≡ flagged a c.queue
unfolding SyncChannel.recv
recv-flagged a c c' t [] at got = ground (arith, at, got)
recv-flagged a c c' t (finished ∷ q) at got = ground (arith, at, got)
recv-flagged a c c' t (task u ∷ q) at got = ground (arith, at, got)

module _ (D : DashMap ℕ) (n a : ℕ) where
  open D use {Map}

  -- The flag stays set, and no executor has more tasks with it.
  abbrev Stays : System Map → System Map → Type 0
  Stays s u = (u.sched.aborts a ≡ true) × ((e : ℕ) → at_executor a u e ≤ at_executor a s e)

  -- The call of the manager in a step.
  called-Stays :
      (s : System Map) (m : Exec (Scheduler Map)) (s' : Scheduler Map)
      → s.sched.aborts a ≡ true
      → m ≡ done s'
      → Whenever (λ x. x.aborts ≡ s.sched.aborts) m
      → NoMore D a s.sched m
      → (s'.aborts a ≡ true)
        × ((e : ℕ) → flagged a (s'.channels e).queue ≤ flagged a (s.sched.channels e).queue)
  called-Stays s m s' set returns flags fewer = (
    ap (λ (f : ℕ → _). f a) (Whenever-done _ m returns flags) ∙ set,
    Whenever-done _ m returns fewer,
  )

  Step-Stays : (s u : System Map) → s.sched.aborts a ≡ true → Step D n s u → Stays s u
  Step-Stays s _ set (submit t {s'} returns) =
      let (still, fewer) =
        called-Stays s (register_or_execute D s.sched t) s' set returns
          (submit-SameFlags D s.sched t) (submit-NoMore D a s.sched t set) in
      (still, λ e. omega (arith, fewer e))
  Step-Stays s _ set (receive e t {c} lt idle got) = (
    set,
    λ e'. elim (Bool-cases (e == e')) [
      | inl same ↦
          let at : e ≡ e' = ground (arith, same) in
          rw same (
            subst (λ x. flagged a c.queue + one_of a t ≤ at_executor a s x) at
              (omega (arith, recv-flagged a (s.sched.channels e) c t _ refl got)))
      | inr apart ↦ rw apart (omega arith)
    ],
  )
  Step-Stays s _ set (ready e t {s'} lt at returns) =
      let (still, fewer) =
        called-Stays s (executor_ready D s.sched e) s' set returns (ready-SameFlags D s.sched e)
          (ready-NoMore D a s.sched e set) in
      (
        still,
        λ e'. elim (Bool-cases (e == e')) [
          | inl same ↦ rw same (omega (arith, fewer e'))
          | inr apart ↦ rw apart (omega (arith, fewer e'))
        ],
      )
  Step-Stays s _ set (abort b) = (ground (arith, set), λ e. omega arith)

  Reach-Stays : (s u : System Map) → s.sched.aborts a ≡ true → Reach D n s u → Stays s u
  Reach-Stays s _ set here = (set, λ e. omega arith)
  Reach-Stays s u set (later {t = v} before step) =
      let (set', fewer) = Reach-Stays s v set before in
      let (set'', fewer') = Step-Stays v u set' step in
      (set'', λ e. omega (arith, fewer e, fewer' e))

module _ (D : DashMap ℕ) (n : ℕ) where
  open D use {Map}

  -- Let a handle be aborted in any state of the system. However the system goes on, with whatever
  -- submissions, wake-ups, aborts, receptions and requests for work, no executor ever has more
  -- tasks with the handle's flag, in its channel and in its hands, than it had when the flag was
  -- set. So an executor that had no such task is never given one, though the task waits or is
  -- woken.
  pub aborted_stays_out :
      (s u : System Map) (jh : JoinHandle) (e : ℕ)
      → Reach D n (record s { sched = Spawner.abort jh s.sched }) u
      → at_executor jh.abort u e ≤ at_executor jh.abort s e
  unfolding Spawner.abort
  aborted_stays_out s u jh e path =
      (Reach-Stays D n jh.abort (record s { sched = Spawner.abort jh s.sched }) u (ground arith)
          path).1
        e
