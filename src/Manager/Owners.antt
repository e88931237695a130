-- ===== src/Manager/Owners.antt =====
-- How many references to a task of src/task/task.rs the queues of src/task/manager.rs hold.
use hooch.Base.{
  ℕ, suc, ◌+◌, ◌≡◌, ◌<◌, ◌==◌, if◌then◌else◌, List, [], ◌∷◌, ◌++◌, arith, update, total,
  total-update,
}
use hooch.SyncChannel.{SyncChannel}
use hooch.Task.{Task}
use hooch.Manager.{ExecutorTask, task, finished}
use hooch.Manager.Waits.{with_task}

-- The tasks of a list that stand at `ptr`. The cell of its future is a part of the task, so that its
-- address tells where the task stands.
abbrev pub waiting_at : ℕ → List Task → ℕ
waiting_at ptr [] = 0
waiting_at ptr (t ∷ ts) = let rest = waiting_at ptr ts in if ptr == t.future then suc rest else rest

abbrev pub queued_at : ℕ → List ExecutorTask → ℕ
queued_at ptr [] = 0
queued_at ptr (finished ∷ q) = queued_at ptr q
queued_at ptr (task t ∷ q) =
    let rest = queued_at ptr q in if ptr == t.future then suc rest else rest

-- One more if `t` stands at `ptr`.
abbrev pub one_at : ℕ → Task → ℕ
one_at ptr t = if ptr == t.future then 1 else 0

pub waiting_at-snoc :
    (ptr : ℕ) (ts : List Task) (t : Task)
    → waiting_at ptr (ts ++ t ∷ []) ≡ waiting_at ptr ts + one_at ptr t
waiting_at-snoc ptr [] t = ground arith
waiting_at-snoc ptr (u ∷ ts) t = ground (arith, waiting_at-snoc ptr ts t)

queued_at-snoc :
    (ptr : ℕ) (q : List ExecutorTask) (t : Task)
    → queued_at ptr (q ++ task t ∷ []) ≡ queued_at ptr q + one_at ptr t
queued_at-snoc ptr [] t = ground arith
queued_at-snoc ptr (finished ∷ q) t = queued_at-snoc ptr q t
queued_at-snoc ptr (task u ∷ q) t = ground (arith, queued_at-snoc ptr q t)

-- The references to `ptr` that the waiting tasks and the channels of `n` executors hold.
abbrev pub held : ℕ → (ℕ → SyncChannel ExecutorTask) → List Task → ℕ → ℕ
held n channels ws ptr = waiting_at ptr ws + total n (λ e. queued_at ptr (channels e).queue)

pub held-queued :
    (n : ℕ) (channels : ℕ → SyncChannel ExecutorTask) (ws : List Task) (t : Task) (ptr : ℕ)
    → held n channels (ws ++ t ∷ []) ptr ≡ held n channels ws ptr + one_at ptr t
held-queued n channels ws t ptr = omega (arith, waiting_at-snoc ptr ws t)

pub held-sent :
    (n : ℕ) (channels : ℕ → SyncChannel ExecutorTask) (ws : List Task) (e : ℕ) (t : Task) (ptr : ℕ)
    → e < n
    → held n (update channels e (with_task (channels e) t)) ws ptr
      ≡ held n channels ws ptr + one_at ptr t
held-sent n channels ws e t ptr lt = omega (
  arith,
  total-update n e (λ (c : SyncChannel ExecutorTask). queued_at ptr c.queue) channels
      (with_task (channels e) t) lt,
  queued_at-snoc ptr (channels e).queue t,
)
