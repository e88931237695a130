-- ===== src/Manager/Hands.antt =====
-- The tasks that a thread has while it is inside a call of src/task/manager.rs, and those that it drops
-- there because they are aborted.
use hooch.Base.{
  ◌⊎◌, ℕ, ◌≡◌, refl, true, done, panicked, blocked, undefined, none, some, if◌then◌else◌, Bool,
  Bool-cases, inl, inr, arith, ◌==◌,
}
use hooch.Ring
use hooch.Ring.{Ring}
use hooch.Task.{Task, has_aborted}
use hooch.Manager.{Scheduler}
use hooch.Manager.Owners.{one_at}
use hooch.Manager.Halves.{ReadyPc, SubmitPc}

-- The task of a thread that submits it, and the one that an executor has taken out, if it is at `ptr`.
abbrev pub offered : ℕ → SubmitPc → ℕ
offered ptr (SubmitPc.arriving t) = one_at ptr t
offered ptr (SubmitPc.seeking t) = one_at ptr t
offered ptr (SubmitPc.queueing t) = one_at ptr t
offered ptr (SubmitPc.sending e t) = one_at ptr t
offered ptr SubmitPc.returned = 0

abbrev pub carried : ℕ → ReadyPc → ℕ
carried ptr (ReadyPc.sending t) = one_at ptr t
carried ptr ReadyPc.asking = 0
carried ptr ReadyPc.parking = 0
carried ptr ReadyPc.returned = 0

-- No task.
abbrev pub nothing : ℕ → ℕ
nothing ptr = 0

-- `t`, if it is at `ptr` and aborted.
abbrev pub dropped_at : (ℕ → Bool) → ℕ → Task → ℕ
dropped_at aborts ptr t = if has_aborted aborts t then one_at ptr t else 0

-- What the next access of a thread drops: a submission of an aborted task ends, and an executor passes
-- over one that waits.
abbrev pub refused : (ℕ → Bool) → SubmitPc → ℕ → ℕ
refused aborts (SubmitPc.arriving t) ptr = dropped_at aborts ptr t
refused aborts (SubmitPc.seeking t) ptr = 0
refused aborts (SubmitPc.queueing t) ptr = 0
refused aborts (SubmitPc.sending e t) ptr = 0
refused aborts SubmitPc.returned ptr = 0

abbrev pub passed_over : {M : Type 0} → Scheduler M → ReadyPc → ℕ → ℕ
passed_over s ReadyPc.asking ptr = elim (Ring.pop s.manager.waiting_tasks) [
  | done (next, ring) ↦ elim next [ none ↦ 0 | some t ↦ dropped_at s.aborts ptr t ]
  | panicked ↦ 0
  | blocked ↦ 0
  | undefined ↦ 0
]
passed_over s ReadyPc.parking ptr = 0
passed_over s (ReadyPc.sending t) ptr = 0
passed_over s ReadyPc.returned ptr = 0

-- The flag of a task at `ptr` is set.
abbrev pub Aborted : (ℕ → Bool) → ℕ → Type 0
Aborted aborts ptr = (t : Task) × (t.future ≡ ptr) × (aborts t.abort ≡ true)

-- Nothing is dropped at `ptr` without such a task.
abbrev pub Excused : (ℕ → Bool) → (ℕ → ℕ) → ℕ → Type 0
Excused aborts drops ptr = (drops ptr ≡ 0) ⊎ Aborted aborts ptr

pub dropped-Excused :
    (aborts : ℕ → Bool) (t : Task) (ptr : ℕ) → Excused aborts (λ p. dropped_at aborts p t) ptr
unfolding has_aborted
dropped-Excused aborts t ptr = elim (Bool-cases (aborts t.abort)) [
  | inl set ↦ elim (Bool-cases (ptr == t.future)) [
    | inl same ↦ inr (t, ground arith, set)
    | inr other ↦ inl (ground arith)
  ]
  | inr clear ↦ inl (rw clear refl)
]
