-- ===== src/Manager/Turns.antt =====
-- The steps of Manager/Crowd that make no call of src/task/manager.rs.
use hooch.Base.{
  Bool, true, inl, inr, ℕ, ◌+◌, ◌≡◌, ◌<◌, refl, ap, List, [], ◌∷◌, arith, total-update, update,
  done, ok,
}
use hooch.SyncChannel
use hooch.SyncChannel.{SyncChannel, RecvError}
use hooch.DashMap.{DashMap}
use hooch.Task.{Task}
use hooch.Manager.{ExecutorTask, task, finished}
use hooch.Manager.Halves.{SubmitPc}
use hooch.Manager.Owners.{one_at, queued_at}
use hooch.Manager.Hands.{offered, Aborted}
use hooch.Manager.Crowd.{ExecutorPc, receiving, polling, Crowd}
use hooch.Manager.Moves.{in_hand, Inv}

-- A receiver takes a task out of its channel.
pub recv_takes :
    (c c' : SyncChannel ExecutorTask) (t : Task) (ptr : ℕ) (q : List ExecutorTask)
    → c.queue ≡ q
    → SyncChannel.recv c ≡ done (ok (task t), c')
    → queued_at ptr c.queue ≡ queued_at ptr c'.queue + one_at ptr t
unfolding SyncChannel.recv
recv_takes c c' t ptr [] at got = ground (arith, at, got)
recv_takes c c' t ptr (finished ∷ q) at got = ground (arith, at, got)
recv_takes c c' t ptr (task u ∷ q) at got = ground (arith, at, got)

module _ (D : DashMap ℕ) (n m : ℕ) where
  open D use {Map, get}

  pub begins-Inv :
      (q : Crowd Map) (ws : List Task) (is : List ℕ) (i : ℕ) (t : Task)
      → Inv D n m q ws is
      → i < n
      → q.submitters i ≡ SubmitPc.returned
      → Inv D n m
          (record q {
            submitters = update q.submitters i (SubmitPc.arriving t);
            submitted = λ ptr. q.submitted ptr + one_at ptr t;
          })
          ws
          is
  begins-Inv q ws is i t v lt at = record {
    fine = v.fine;
    conserved = λ ptr. omega (
      arith,
      v.conserved ptr,
      total-update n i (offered ptr) q.submitters (SubmitPc.arriving t) lt,
      ap (offered ptr) at,
    );
    excused = v.excused;
  }

  -- A flag stays set when another one is set.
  update-Aborted :
      (flags : ℕ → Bool) (a : ℕ) (ptr : ℕ) → Aborted flags ptr → Aborted (update flags a true) ptr
  update-Aborted flags a ptr (t, at, set) = (t, at, ground arith)

  pub aborts-Inv :
      (q : Crowd Map) (ws : List Task) (is : List ℕ) (a : ℕ)
      → Inv D n m q ws is
      → Inv D n m
          (record q { sched = record (q.sched) { aborts = update q.sched.aborts a true } })
          ws
          is
  aborts-Inv q ws is a v = record {
    fine = record { waits = v.fine.waits; addresses = v.fine.addresses };
    conserved = v.conserved;
    excused = λ ptr. elim (v.excused ptr) [
      | inl none_yet ↦ inl none_yet
      | inr old ↦ inr (update-Aborted q.sched.aborts a ptr old)
    ];
  }

  -- A step of an executor that leaves the scheduler alone.
  pub alone-Inv :
      (q : Crowd Map) (ws : List Task) (is : List ℕ) (e : ℕ) (pc pc' : ExecutorPc) (polled : ℕ → ℕ)
      → Inv D n m q ws is
      → e < m
      → q.executors e ≡ pc
      → ((ptr : ℕ) → polled ptr + in_hand ptr pc' ≡ q.polled ptr + in_hand ptr pc)
      → Inv D n m (record q { executors = update q.executors e pc'; polled = polled }) ws is
  alone-Inv q ws is e pc pc' polled v lt at same = record {
    fine = v.fine;
    conserved = λ ptr. omega (
      arith,
      v.conserved ptr,
      same ptr,
      total-update m e (in_hand ptr) q.executors pc' lt,
      ap (in_hand ptr) at,
    );
    excused = v.excused;
  }

  pub received-Inv :
      (q : Crowd Map) (ws : List Task) (is : List ℕ) (e : ℕ) (t : Task)
      (c : SyncChannel ExecutorTask)
      → Inv D n m q ws is
      → e < m
      → q.executors e ≡ receiving
      → SyncChannel.recv (q.sched.channels e) ≡ done (ok (task t), c)
      → Inv D n m
          (record q {
            sched = record (q.sched) { channels = update q.sched.channels e c };
            executors = update q.executors e (polling t);
          })
          ws
          is
  received-Inv q ws is e t c v lt at got = record {
    fine = record { waits = v.fine.waits; addresses = v.fine.addresses };
    conserved = λ ptr. omega (
      arith,
      v.conserved ptr,
      recv_takes (q.sched.channels e) c t ptr (q.sched.channels e).queue refl got,
      total-update m e (λ (x : SyncChannel ExecutorTask). queued_at ptr x.queue) q.sched.channels c
          lt,
      total-update m e (in_hand ptr) q.executors (polling t) lt,
      ap (in_hand ptr) at,
    );
    excused = v.excused;
  }
