-- ===== src/Runtime/Resumed.antt =====
-- A task that waits for an event of a source comes back to an executor: src/reactor.rs with the wakers
-- of src/task/task.rs and with src/task/manager.rs.
use hooch.Base.{ℕ, ◌≡◌, ◌≢◌, ◌<◌, false, Option, List, [], ◌∷◌, arith, ◌==◌, Returns, Returns-value}
use hooch.DashMap.{DashMap}
use hooch.Task.{Task, has_aborted}
use hooch.Manager.Placed.{Placed}
use hooch.Reactor.{Reactor, pending, ready, waker_token, poll}
use hooch.Reactor.Readiness
use hooch.Reactor.Readiness.{Op, Elsewhere, event, step, event-happened, pending_is_woken}
use hooch.Waker.{Arcs}
use hooch.Waker.Ops.{wakes, wakers_after, run}
use hooch.Waker.Handing.{Balanced}
use hooch.Runtime.Delivery.{token_calls, handle_event}
use hooch.Runtime.Waking.{last_wake_places}

-- An event of a token makes the next poll of it ready.
poll-ready :
    (r : Reactor) (token ptr : ℕ)
    → token ≢ waker_token
    → (poll (step r (event token)) token ptr).0 ≡ ready tt
unfolding poll
poll-ready r token ptr other = ground (arith, event-happened r token other)

module _ (D : DashMap ℕ) (n : ℕ) where
  open D use {Map}

  -- The task is back, its next poll of the token is ready, and the waker is used up.
  abbrev pub Resumes :
      (running : ℕ → Option Task) (others wakers : ℕ → ℕ) → ℕ → Task → Reactor × Arcs Map → Type 0
  Resumes running others wakers token t (r, s) =
      ((poll r token t.future).0 ≡ ready tt)
      × Placed D n t (record { sched = s.sched; running = running })
      × Balanced D n running others 0 0 (wakers_after (wakes t.future) wakers) s

  -- Let the poll of a token of a source by the live task `t` be pending, and let any polls and
  -- events of other tokens come between. When the event of the token comes, let each task's `Arc`
  -- count the task's wakers, that of `t` among them, its places in the queues of the manager and
  -- the executors, and further references that stay as they are; the manager is alive and satisfies
  -- its invariant, and one more task may wait, and one more reference be made. Then the event loop
  -- takes the event without reaching for a task that is freed. Afterwards the task `t` is alone in
  -- the channel of an executor or waits in the manager, in a system that satisfies its invariant;
  -- its next poll of the token is ready; and the references are counted right, with one waker of
  -- `t` less: the stored one, which is used up.
  pub event-Resumes :
      (running : ℕ → Option Task) (others wakers : ℕ → ℕ) (r : Reactor) (token : ℕ) (t : Task)
      (os : List Op) (s : Arcs Map)
      → token ≢ waker_token
      → (poll r token t.future).0 ≡ pending
      → Elsewhere token os
      → Balanced D n running others 1 1 wakers s
      → 0 < wakers t.future
      → s.tasks t.future ≡ t
      → has_aborted s.sched.aborts t ≡ false
      → Returns
          (Resumes running others wakers token t)
          (handle_event D token (Readiness.run (poll r token t.future).1 os) s)
  unfolding handle_event token_calls
  event-Resumes running others wakers r token t os s other waits elsewhere b some_held own live =
      let source : (token == waker_token) ≡ false = ground arith in
      let (s', returns, (b', placed)) =
        Returns-value _ (run D (wakes t.future ∷ []) s)
          (last_wake_places D n running others wakers s t b some_held own live) in
      rw (pending_is_woken r token t.future os other waits elsewhere, source, returns)
        (poll-ready _ token t.future other, placed, b')
