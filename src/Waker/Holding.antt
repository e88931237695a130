-- ===== src/Waker/Holding.antt =====
-- The references to tasks over a round of `Executor::run` (src/executor.rs).
use hooch.Base.{
  ℕ, suc, ◌+◌, ◌-◌, ◌≡◌, ◌<◌, ◌∙◌, refl, ap, sym, subst, fun_ext, none, some, false, ◌==◌,
  Bool-cases, inl, inr, List, ◌∷◌, length, arith, Option, total-update, update, done, ok, Returns,
  Returns-bind,
}
use hooch.SyncChannel
use hooch.SyncChannel.{SyncChannel}
use hooch.DashMap.{DashMap}
use hooch.Task.{Task}
use hooch.Manager.{ExecutorTask, task}
use hooch.Manager.Invariant.{received-Inv}
use hooch.Manager.Owners.{queued_at}
use hooch.Manager.Turns.{recv_takes}
use hooch.Waker.{Arcs, arc_clone, arc_drop}
use hooch.Waker.Ops.{WakerOp, count_wakers, AreHeld, run}
use hooch.Waker.Handing.{Balanced, clone_of-Balanced, drop-Balanced}
use hooch.Waker.Balance.{wakers_balance}
use hooch.Waker.Rounds.{executor_ready, forward_task, round}
use hooch.Waker.Asking.{ready-Balanced}

-- One more reference at `ptr`.
abbrev pub one_more : (ℕ → ℕ) → ℕ → ℕ → ℕ
one_more f ptr = update f ptr (f ptr + 1)

-- The wakers after a poll of the task at `ptr` that makes the calls `ops`: the poll's own waker is
-- dropped in the end.
abbrev pub polled_wakers : List WakerOp → ℕ → (ℕ → ℕ) → ℕ → ℕ
polled_wakers ops ptr wakers =
    let left = count_wakers ops (one_more wakers ptr) in update left ptr (left ptr - 1)

module _ (D : DashMap ℕ) (n : ℕ) where
  open D use {Map}

  -- The reference of a channel becomes the executor's.
  received-Balanced :
      (running : ℕ → Option Task) (others : ℕ → ℕ) (left room : ℕ) (wakers : ℕ → ℕ) (s : Arcs Map)
      (e : ℕ) (t : Task) (c : SyncChannel ExecutorTask)
      → Balanced D n running others left room wakers s
      → e < n
      → running e ≡ none
      → SyncChannel.recv (s.sched.channels e) ≡ done (ok (task t), c)
      → Balanced D n
          (update running e (some t))
          (one_more others t.future)
          left
          room
          wakers
          (record s { sched = record (s.sched) { channels = update s.sched.channels e c } })
  received-Balanced running others left room wakers s e t c b lt at got = record {
    ws = b.ws;
    is = b.is;
    system = received-Inv D n _ b.ws b.is e t c b.system lt at got;
    alive = b.alive;
    placed = b.placed;
    counted = λ ptr. ground (
      arith,
      b.counted ptr,
      recv_takes (s.sched.channels e) c t ptr (s.sched.channels e).queue refl got,
      total-update n e (λ (x : SyncChannel ExecutorTask). queued_at ptr x.queue) s.sched.channels c
          lt,
    );
    countable = b.countable;
    spacious = b.spacious;
  }

  -- The executor lets go of its reference.
  released-Balanced :
      (running : ℕ → Option Task) (others : ℕ → ℕ) (left room : ℕ) (wakers : ℕ → ℕ) (s : Arcs Map)
      (ptr : ℕ)
      → Balanced D n running (one_more others ptr) left room wakers s
      → Returns (Balanced D n running others left room wakers) (arc_drop s ptr)
  unfolding arc_drop
  released-Balanced running others left room wakers s ptr b =
      let there : (s.strong ptr == 0) ≡ false = ground (arith, b.counted ptr) in
      rw there (record {
        ws = b.ws;
        is = b.is;
        system = b.system;
        alive = b.alive;
        placed = b.placed;
        counted = λ a. ground (arith, b.counted a, b.counted ptr);
        countable = λ a. ground (arith, b.countable a, b.countable ptr);
        spacious = b.spacious;
      })

  forward-Balanced :
      (running : ℕ → Option Task) (others : ℕ → ℕ) (ops : List WakerOp) (left room : ℕ)
      (wakers : ℕ → ℕ) (s : Arcs Map) (ptr : ℕ)
      → Balanced D n running
          (one_more others ptr)
          (suc (length ops + left))
          (length ops + room)
          wakers
          s
      → AreHeld ops (one_more wakers ptr)
      → 0 < count_wakers ops (one_more wakers ptr) ptr
      → Returns
          (Balanced D n running others left room (polled_wakers ops ptr wakers))
          (forward_task D ops s ptr)
  unfolding forward_task
  forward-Balanced running others ops left room wakers s ptr b all_held given_back =
      let more = one_more others ptr in
      let there : (s.strong ptr == 0) ≡ false = ground (arith, b.counted ptr) in
      Returns-bind
        (Balanced D n running more (length ops + left) (length ops + room) (one_more wakers ptr)) _
        (arc_clone s ptr) _
        (clone_of-Balanced D n running more (length ops + left) (length ops + room) wakers s ptr b
          there)
        (λ s1 b1.
          Returns-bind
            (Balanced D n running more left room (count_wakers ops (one_more wakers ptr))) _
            (run D ops s1) _
            (wakers_balance D n running more ops left room (one_more wakers ptr) s1 b1 all_held)
            (λ s2 b2.
              Returns-bind (Balanced D n running more left room (polled_wakers ops ptr wakers)) _
                (arc_drop s2 ptr) (λ s3. arc_drop s3 ptr)
                (drop-Balanced D n running more left room _ s2 ptr b2 given_back)
                (λ s3 b3. released-Balanced running others left room _ s3 ptr b3)))

  -- An executor that has polled nothing before polls nothing afterwards.
  same_running :
      (running : ℕ → Option Task) (e : ℕ) (t : Task)
      → running e ≡ none
      → update (update running e (some t)) e none ≡ running
  same_running running e t idle = fun_ext (λ a. elim (Bool-cases (e == a)) [
    | inl here ↦ rw here (sym idle ∙ ap running (ground (arith, here)))
    | inr there ↦ rw there refl
  ])

  -- Let each task's `Arc` count the task's wakers, its places in the queues of the manager and the
  -- executors, and further references that stay as they are. The manager is alive and satisfies its
  -- invariant, an executor polls nothing and has a task at the head of its channel, as many more
  -- tasks may wait as the poll makes calls, and no count comes near `isize::MAX`. The poll makes
  -- any sequence of calls of `clone`, `drop`, `wake` and `wake_by_ref` on wakers that are there,
  -- its own among them, and at its end its own waker is there. Then the executor's round, from
  -- `recv` to the end of `executor_ready`, returns, it never reaches for a task that is freed, and
  -- the counts are right again: the references of the channel, of the poll's waker and of the
  -- waiting tasks that turn out to be aborted are dropped, and a `wake` hands its reference over to
  -- a queue, or drops it if the task has been aborted.
  pub round_balances :
      (running : ℕ → Option Task) (others : ℕ → ℕ) (ops : List WakerOp) (left room : ℕ)
      (wakers : ℕ → ℕ) (s : Arcs Map) (e : ℕ) (t : Task) (rest : List ExecutorTask)
      → Balanced D n running others (suc (length ops + left)) (length ops + room) wakers s
      → e < n
      → running e ≡ none
      → (s.sched.channels e).queue ≡ task t ∷ rest
      → AreHeld ops (one_more wakers t.future)
      → 0 < count_wakers ops (one_more wakers t.future) t.future
      → Returns
          (Balanced D n running others left room (polled_wakers ops t.future wakers))
          (round D e ops s)
  unfolding round SyncChannel.recv
  round_balances running others ops left room wakers s e t rest b lt idle there all_held
        given_back =
      rw there (
        Returns-bind
          (Balanced D n (update running e (some t)) others left room
            (polled_wakers ops t.future wakers))
          _ (forward_task D ops _ t.future) (λ s''. executor_ready D s'' e)
          (forward-Balanced (update running e (some t)) others ops left room wakers _ t.future
            (received-Balanced running others (suc (length ops + left)) (length ops + room) wakers s
              e t (record (s.sched.channels e) { queue = rest }) b lt idle (rw there refl))
            all_held given_back)
          (λ s'' b''.
            subst
              (λ running'.
                Returns (Balanced D n running' others left room (polled_wakers ops t.future wakers))
                  (executor_ready D s'' e))
              (same_running running e t idle)
              (ready-Balanced D n (update running e (some t)) others left room _ s'' e t b'' lt
                (ground arith))))
