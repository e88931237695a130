-- ===== src/Manager/Aborted.antt =====
-- What src/task/manager.rs does with the tasks of an abort flag that is set.
use hooch.Base.{
  ℕ, zero, suc, ◌+◌, ◌≡◌, ◌≤◌, refl, sym, subst, ap, ◌∙◌, Bool, true, false, Bool-cases, inl, inr,
  Option, none, some, List, [], ◌∷◌, ◌++◌, arith, ◌==◌, if◌then◌else◌, ltb, length, Exec, unwrap,
  unwrap_some, Whenever, Whenever-if, Whenever-bind, Whenever-then,
}
use hooch.Ring
use hooch.SyncChannel
use hooch.SyncChannel.{SyncChannel}
use hooch.DashMap.{DashMap}
use hooch.Task.{Task, has_aborted}
use hooch.Manager.{
  Scheduler, ExecutorTask, task, finished, with_tasks, with_executors, wait_for_task,
  wait_for_executor, send_task, ready_loop, executor_ready, register_or_execute,
}
use hooch.Manager.System.{System}

abbrev pub one_of : ℕ → Task → ℕ
one_of a t = if t.abort == a then 1 else 0

-- The tasks with the flag at `a` in a channel, and at an executor.
abbrev pub flagged : ℕ → List ExecutorTask → ℕ
flagged a [] = 0
flagged a (finished ∷ q) = flagged a q
flagged a (task t ∷ q) = one_of a t + flagged a q

abbrev pub polled : ℕ → Option Task → ℕ
polled a none = 0
polled a (some t) = one_of a t

-- Those that executor `e` has still to poll, or polls.
abbrev pub at_executor : {M : Type 0} → ℕ → System M → ℕ → ℕ
at_executor a s e = flagged a (s.sched.channels e).queue + polled a (s.running e)

flagged-snoc :
    (a : ℕ) (q : List ExecutorTask) (t : Task)
    → flagged a (q ++ task t ∷ []) ≡ flagged a q + one_of a t
flagged-snoc a [] t = omega arith
flagged-snoc a (finished ∷ q) t = flagged-snoc a q t
flagged-snoc a (task u ∷ q) t = omega (arith, flagged-snoc a q t)

-- A live task has another flag.
live-one_of :
    (aborts : ℕ → Bool) (a : ℕ) (t : Task)
    → aborts a ≡ true
    → has_aborted aborts t ≡ false
    → one_of a t ≡ 0
unfolding has_aborted
live-one_of aborts a t set live = elim (Bool-cases (t.abort == a)) [
  | inl same ↦
      let at : t.abort ≡ a = ground (arith, same) in
      absurd (ground (arith, set, sym live ∙ ap aborts at))
  | inr other ↦ rw other refl
]

send-flagged :
    (a : ℕ) (c : SyncChannel ExecutorTask) (t : Task)
    → one_of a t ≡ 0
    → Whenever (λ (_, c'). flagged a c'.queue ≤ flagged a c.queue) (SyncChannel.send c (task t))
unfolding SyncChannel.send
send-flagged a c t other =
    Whenever-if _ c.receiver _ _
      (Whenever-if _ (ltb (length c.queue) c.bound) _ _
        (omega (arith, flagged-snoc a c.queue t, other)) tt)
      (omega arith)

module _ (D : DashMap ℕ) (a : ℕ) where
  open D use {Map, get}

  -- If the call returns, no channel has more tasks with the flag than in `s`.
  abbrev pub NoMore : Scheduler Map → Exec (Scheduler Map) → Type 0
  NoMore s m =
      Whenever (λ s'. (e : ℕ) → flagged a (s'.channels e).queue ≤ flagged a (s.channels e).queue) m

  send_task-NoMore :
      (s : Scheduler Map) (e : ℕ) (t : Task) → one_of a t ≡ 0 → NoMore s (send_task D s e t)
  unfolding send_task
  send_task-NoMore s e t other =
      Whenever-then _ (unwrap_some (get e s.manager.executors)) _ (λ sender.
        Whenever-bind (λ (_, c). flagged a c.queue ≤ flagged a (s.channels sender).queue) _
          (SyncChannel.send (s.channels sender) (task t)) _
          (send-flagged a (s.channels sender) t other)
          (λ sent fewer. Whenever-then _ (unwrap sent.0) _ (λ _ e'.
            elim (Bool-cases (sender == e')) [
              | inl same ↦
                  let at : sender ≡ e' = ground (arith, same) in
                  rw same
                    (subst (λ x. flagged a sent.1.queue ≤ flagged a (s.channels x).queue) at fewer)
              | inr apart ↦ rw apart (omega arith)
            ])))

  wait_for_task-NoMore : (s : Scheduler Map) (e : ℕ) → NoMore s (wait_for_task D s e)
  unfolding wait_for_task
  wait_for_task-NoMore s e =
      Whenever-then _ (Ring.push s.manager.waiting_executors e) _
        (λ pushed. Whenever-then _ (unwrap pushed.0) _ (λ _ e'. omega arith))

  sought-NoMore :
      (s : Scheduler Map) (t : Task) (exec : Option ℕ)
      → one_of a t ≡ 0
      → NoMore s (elim exec [ none ↦ wait_for_executor D s t | some e ↦ send_task D s e t ])
  unfolding wait_for_executor
  sought-NoMore s t none other =
      Whenever-then _ (Ring.push s.manager.waiting_tasks t) _
        (λ pushed. Whenever-then _ (unwrap pushed.0) _ (λ _ e'. omega arith))
  sought-NoMore s t (some e) other = send_task-NoMore s e t other

  pub submit-NoMore :
      (s : Scheduler Map) (t : Task) → s.aborts a ≡ true → NoMore s (register_or_execute D s t)
  unfolding register_or_execute
  submit-NoMore s t set = elim (Bool-cases (has_aborted s.aborts t)) [
    | inl dead ↦ rw dead (λ e. omega arith)
    | inr live ↦ rw live (
        Whenever-then _ (Ring.pop s.manager.waiting_executors) _ (λ popped.
          sought-NoMore (with_executors s popped.1) t popped.0 (live-one_of s.aborts a t set live)))
  ]

  taken-NoMore :
      (s : Scheduler Map) (e : ℕ) (again : Exec (Scheduler Map)) (next : Option Task)
      → s.aborts a ≡ true
      → NoMore s again
      → NoMore s (elim next [
        | none ↦ wait_for_task D s e
        | some t ↦ elim (has_aborted s.aborts t) [ true ↦ again | false ↦ send_task D s e t ]
      ])
  taken-NoMore s e again none set h = wait_for_task-NoMore s e
  taken-NoMore s e again (some t) set h = elim (Bool-cases (has_aborted s.aborts t)) [
    | inl dead ↦ rw dead h
    | inr live ↦ rw live (send_task-NoMore s e t (live-one_of s.aborts a t set live))
  ]

  loop-NoMore :
      (rounds : ℕ) (s : Scheduler Map) (e : ℕ)
      → s.aborts a ≡ true
      → NoMore s (ready_loop D rounds s e)
  unfolding ready_loop
  loop-NoMore zero s e set = tt
  loop-NoMore (suc rounds) s e set = Whenever-then _ (Ring.pop s.manager.waiting_tasks) _ (λ popped.
      taken-NoMore (with_tasks s popped.1) e _ popped.0 set
        (loop-NoMore rounds (with_tasks s popped.1) e set))

  pub ready-NoMore :
      (s : Scheduler Map) (e : ℕ) → s.aborts a ≡ true → NoMore s (executor_ready D s e)
  unfolding executor_ready
  ready-NoMore s e set = loop-NoMore _ s e set
