-- ===== src/Manager/Moves.antt =====
-- Where the submitted tasks are while the calls of src/task/manager.rs interleave.
use hooch.Base.{
  Bool, inl, inr, ℕ, ◌+◌, ◌≡◌, ◌<◌, ap, List, arith, total, total-update, update, done,
  Whenever-done,
}
use hooch.DashMap.{DashMap}
use hooch.Task.{Task}
use hooch.Manager.{Scheduler}
use hooch.Manager.Halves.{ReadyPc, SubmitPc, ready_access, submit_access}
use hooch.Manager.Owners.{one_at, held}
use hooch.Manager.Hands.{offered, carried, refused, passed_over, Excused}
use hooch.Manager.Accesses.{Fine, Kept}
use hooch.Manager.Asking.{submit-Kept, ready-Kept}
use hooch.Manager.Crowd.{ExecutorPc, receiving, polling, calling, Crowd}

-- The task that an executor has, if it is at `ptr`.
abbrev pub in_hand : ℕ → ExecutorPc → ℕ
in_hand ptr receiving = 0
in_hand ptr (polling t) = one_at ptr t
in_hand ptr (calling pc) = carried ptr pc

module _ (D : DashMap ℕ) (n m : ℕ) where
  open D use {Map, get}

  -- Each submission of a task so far has led to a poll of it, or to its being dropped, or the task is in
  -- one place for it: with the thread that submits it, among the tasks that wait, in a channel, or with
  -- an executor.
  abbrev pub IsConserved : Crowd Map → List Task → ℕ → Type 0
  IsConserved q ws ptr =
      q.submitted ptr
      ≡ q.polled ptr
        + q.dropped ptr
        + total n (λ i. offered ptr (q.submitters i))
        + held m q.sched.channels ws ptr
        + total m (λ e. in_hand ptr (q.executors e))

  pub record Inv (q : Crowd Map) (ws : List Task) (is : List ℕ) : Type 0 where
    pub fine : Fine D m q.sched ws is
    pub conserved : (ptr : ℕ) → IsConserved q ws ptr
    pub excused : (ptr : ℕ) → Excused q.sched.aborts q.dropped ptr

  abbrev pub Preserved : Crowd Map → Type 0
  Preserved q = (ws : List Task) × (is : List ℕ) × Inv q ws is

  -- What has been dropped stays excused when an access drops more.
  still-Excused :
      (before after : ℕ → Bool) (dropped more : ℕ → ℕ) (ptr : ℕ)
      → after ≡ before
      → Excused before dropped ptr
      → Excused before more ptr
      → Excused after (λ p. dropped p + more p) ptr
  still-Excused before after dropped more ptr same (inr old) _ = inr (rw same old)
  still-Excused before after dropped more ptr same (inl none_yet) (inr new) = inr (rw same new)
  still-Excused before after dropped more ptr same (inl none_yet) (inl none_now) =
      inl (omega (arith, none_yet, none_now))

  pub submitted-Preserved :
      (q : Crowd Map) (ws : List Task) (is : List ℕ) (i : ℕ) (pc : SubmitPc) (s : Scheduler Map)
      → Inv q ws is
      → i < n
      → submit_access D (q.submitters i) q.sched ≡ done (pc, s)
      → Preserved (record q {
        sched = s;
        submitters = update q.submitters i pc;
        dropped = λ ptr. q.dropped ptr + refused q.sched.aborts (q.submitters i) ptr;
      })
  submitted-Preserved q ws is i pc s v lt e =
      let k =
        Whenever-done
          (λ (pc', s').
            Kept D m q.sched ws (λ ptr. offered ptr (q.submitters i)) (λ ptr. offered ptr pc')
              (refused q.sched.aborts (q.submitters i)) s')
          (submit_access D (q.submitters i) q.sched) e
          (submit-Kept D m q.sched ws is (q.submitters i) v.fine) in
      (
        k.tasks,
        k.idle,
        record {
          fine = k.fine;
          conserved = λ ptr. omega (
            arith,
            v.conserved ptr,
            k.balance ptr,
            total-update n i (offered ptr) q.submitters pc lt,
          );
          excused = λ ptr.
              still-Excused q.sched.aborts s.aborts q.dropped
                (refused q.sched.aborts (q.submitters i)) ptr k.flags (v.excused ptr)
                (k.excused ptr);
        },
      )

  pub asked-Preserved :
      (q : Crowd Map) (ws : List Task) (is : List ℕ) (e : ℕ) (pc pc' : ReadyPc) (s : Scheduler Map)
      → Inv q ws is
      → e < m
      → q.executors e ≡ calling pc
      → ready_access D e pc q.sched ≡ done (pc', s)
      → Preserved (record q {
        sched = s;
        executors = update q.executors e (calling pc');
        dropped = λ ptr. q.dropped ptr + passed_over q.sched pc ptr;
      })
  asked-Preserved q ws is e pc pc' s v lt at returns =
      let k =
        Whenever-done
          (λ (after, s').
            Kept D m q.sched ws (λ ptr. carried ptr pc) (λ ptr. carried ptr after)
              (passed_over q.sched pc) s')
          (ready_access D e pc q.sched) returns (ready-Kept D m q.sched ws is e pc v.fine) in
      (
        k.tasks,
        k.idle,
        record {
          fine = k.fine;
          conserved = λ ptr. omega (
            arith,
            v.conserved ptr,
            k.balance ptr,
            total-update m e (in_hand ptr) q.executors (calling pc') lt,
            ap (in_hand ptr) at,
          );
          excused = λ ptr.
              still-Excused q.sched.aborts s.aborts q.dropped (passed_over q.sched pc) ptr k.flags
                (v.excused ptr) (k.excused ptr);
        },
      )
