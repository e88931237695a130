-- ===== src/Net/Retries.antt =====
-- The loops of src/net/udp.rs, src/net/tcp/listener.rs and src/net/tcp/stream.rs that try again
-- after `WouldBlock`.
use hooch.Base.{
  ℕ, ◌+◌, ◌*◌, ◌≡◌, ◌≢◌, ◌≤◌, refl, ap, ◌∙◌, arith, some, List, [], ◌∷◌, length, done, Result, ok,
  err, Returns, Returns-map,
}
use hooch.Mio.{IoError, would_block, other}
use hooch.Reactor
use hooch.Reactor.{
  Reactor, Waker, Poll, pending, ready, Status, awaited, happened, on_event, status_wakes,
  waker_token,
}
use hooch.Reactor.Readiness.{
  Op, step, event, run, Elsewhere, run-Elsewhere, on_event-eq-step, poll-stores,
}
use hooch.Reactor.Untold.{events_in, untold, run-untold}
use hooch.Net.{LoopPc, attempting, awaiting, poll_loop}

module _ {V S : Type 0} (attempt : S → Result V IoError × S) (token : ℕ) where
  -- From `s`, attempts that all answer `WouldBlock` lead to `s'`.
  pub data Tried (s : S) : S → Type 0 where
    untried : Tried s s
    again : {s' s'' : S} → Tried s s' → attempt s' ≡ (err would_block, s'') → Tried s s''

  -- How a poll that starts with the sockets at `s0` ends: with the value or the error of its last
  -- attempt, or waiting, with the waker stored.
  abbrev pub Ended : S → Waker → Poll (Result V IoError) × LoopPc × Reactor × S → Type 0
  Ended s0 w (ready (ok value), pc, r, s) = (s' : S) × Tried s0 s' × (attempt s' ≡ (ok value, s))
  Ended s0 w (ready (err would_block), pc, r, s) = ⊥
  Ended s0 w (ready (err (other e)), pc, r, s) =
      (s' : S) × Tried s0 s' × (attempt s' ≡ (err (other e), s))
  Ended s0 w (pending, pc, r, s) =
      (pc ≡ awaiting) × Tried s0 s × (r.statuses token ≡ some (awaited w))

  -- A poll of the reactor tells of an event that has been there, and takes it.
  poll_takes :
      (r : Reactor) (w : Waker)
      → (Reactor.poll r token w).0 ≡ ready tt
      → (untold token r ≡ 1) × (untold token (Reactor.poll r token w).1 ≡ 0)
  unfolding Reactor.poll
  poll_takes r w told = (ground (arith, told), ground (arith, told))

  -- An attempt ends the poll, or leads to the `await`.
  attempt_ends :
      (others : List Op) (between : List (List Op)) (r : Reactor) (s0 s : S) (w : Waker)
      (got : Result V IoError)
      → (attempt s).0 ≡ got
      → Tried s0 s
      → (Tried s0 (attempt s).1
          → Returns
              (Ended s0 w)
              (poll_loop attempt token between awaiting (run r others) (attempt s).1 w))
      → Returns (Ended s0 w) (poll_loop attempt token (others ∷ between) attempting r s w)
  unfolding poll_loop
  attempt_ends others between r s0 s w (ok value) e tried rest =
      rw (e, Returns) (s, tried, ap (λ x. (x, (attempt s).1)) e)
  attempt_ends others between r s0 s w (err would_block) e tried rest =
      rw (e, Returns) (rest (again tried (ap (λ x. (x, (attempt s).1)) e)))
  attempt_ends others between r s0 s w (err (other n)) e tried rest =
      rw (e, Returns) (s, tried, ap (λ x. (x, (attempt s).1)) e)

  -- A poll of the reactor ends the poll, or leads to the next attempt.
  await_turn :
      (others : List Op) (between : List (List Op)) (r : Reactor) (s0 s : S) (w : Waker)
      (progress : Poll (Unit {0}))
      → (Reactor.poll (run r others) token w).0 ≡ progress
      → Tried s0 s
      → ((Reactor.poll (run r others) token w).0 ≡ ready tt
          → Returns (Ended s0 w) (
              poll_loop attempt token between attempting
                (Reactor.poll (run r others) token w).1
                s
                w))
      → Returns (Ended s0 w) (poll_loop attempt token (others ∷ between) awaiting r s w)
  unfolding poll_loop
  await_turn others between r s0 s w pending e tried rest =
      rw (e, Returns) (refl, tried, poll-stores (run r others) token w e)
  await_turn others between r s0 s w (ready u) e tried rest = rw (e, Returns) (rest e)

  -- From the `await`: each untold event costs a poll of the reactor and an attempt.
  await_ends :
      (between : List (List Op)) (r : Reactor) (s0 s : S) (w : Waker)
      → Tried s0 s
      → 1 + 2 * (untold token r + events_in token between) ≤ length between
      → Returns (Ended s0 w) (poll_loop attempt token between awaiting r s w)
  await_ends [] r s0 s w tried enough = absurd (omega (arith, enough))
  await_ends (others ∷ []) r s0 s w tried enough =
      await_turn others [] r s0 s w _ refl tried (λ told.
        absurd
          (omega (arith, enough, run-untold token others r, (poll_takes (run r others) w told).0)))
  await_ends (others ∷ others' ∷ between) r s0 s w tried enough =
      await_turn others (others' ∷ between) r s0 s w _ refl tried (λ told.
        let r' = (Reactor.poll (run r others) token w).1 in
        attempt_ends others' between r' s0 s w _ refl tried (λ tried'.
          await_ends between (run r' others') s0 (attempt s).1 w tried' (
            omega (
              arith,
              enough,
              run-untold token others r,
              run-untold token others' r',
              (poll_takes (run r others) w told).0,
              (poll_takes (run r others) w told).1,
            ))))

  untold_le : (r : Reactor) → untold token r ≤ 1
  untold_le r = ground arith

  poll_loop_ends :
      (between : List (List Op)) (pc : LoopPc) (r : Reactor) (s : S) (w : Waker)
      → 4 + 2 * events_in token between ≤ length between
      → Returns (Ended s w) (poll_loop attempt token between pc r s w)
  poll_loop_ends between awaiting r s w enough =
      await_ends between r s s w untried (omega (arith, enough, untold_le r))
  poll_loop_ends [] attempting r s w enough = absurd (omega (arith, enough))
  poll_loop_ends (others ∷ between) attempting r s w enough =
      attempt_ends others between r s s w _ refl untried (λ tried.
        await_ends between (run r others) s (attempt s).1 w tried
          (omega (arith, enough, untold_le (run r others))))

  -- The event of a token for which a waker is stored.
  event_wakes :
      (r : Reactor) (w : Waker) (os : List Op)
      → token ≢ waker_token
      → Elsewhere token os
      → r.statuses token ≡ some (awaited w)
      → on_event (run r os) token ≡ done (w ∷ [], step (run r os) (event token))
  event_wakes r w os apart elsewhere stored =
      on_event-eq-step (run r os) token apart
      ∙ ap (λ status. done (status_wakes status, step (run r os) (event token)))
          (run-Elsewhere os r token elsewhere ∙ stored)

  -- What a poll gives its task. When it is pending, and the calls `os` on the reactor follow, the next
  -- event of the token wakes the task, and nobody else.
  abbrev pub Outcome : S → Waker → List Op → Poll (Result V IoError) × LoopPc × Reactor × S → Type 0
  Outcome s0 w os (ready (ok value), pc, r, s) =
      (s' : S) × Tried s0 s' × (attempt s' ≡ (ok value, s))
  Outcome s0 w os (ready (err would_block), pc, r, s) = ⊥
  Outcome s0 w os (ready (err (other e)), pc, r, s) =
      (s' : S) × Tried s0 s' × (attempt s' ≡ (err (other e), s))
  Outcome s0 w os (pending, pc, r, s) =
      (pc ≡ awaiting)
      × Tried s0 s
      × (on_event (run r os) token ≡ done (w ∷ [], step (run r os) (event token)))

  Outcome-of_Ended :
      (s0 : S) (w : Waker) (os : List Op) (x : Poll (Result V IoError) × LoopPc × Reactor × S)
      → token ≢ waker_token
      → Elsewhere token os
      → Ended s0 w x
      → Outcome s0 w os x
  Outcome-of_Ended s0 w os (ready (ok value), pc, r, s) apart elsewhere h = h
  Outcome-of_Ended s0 w os (ready (err would_block), pc, r, s) apart elsewhere h = h
  Outcome-of_Ended s0 w os (ready (err (other e)), pc, r, s) apart elsewhere h = h
  Outcome-of_Ended s0 w os (pending, pc, r, s) apart elsewhere (waits, tried, stored) =
      (waits, tried, event_wakes r w os apart elsewhere stored)

  -- Let other threads use the reactor before each turn of a poll of a socket call, in any way of
  -- polls and events, with k events of the call's token in all. The token is not that of the
  -- reactor's own waker. Then the poll ends within 4 + 2 k turns, wherever its future stands and
  -- whatever the reactor's state and the socket's answers are: with the value of its last attempt,
  -- with the error of its last attempt, which is not `WouldBlock`, or pending at the `await`; all
  -- attempts before answered `WouldBlock`. If it is pending, the next event of its token wakes the
  -- waker of that poll, and nobody else, whatever polls and events of other tokens come between.
  pub calls_end_or_wake :
      (between : List (List Op)) (pc : LoopPc) (r : Reactor) (s : S) (w : Waker) (os : List Op)
      → token ≢ waker_token
      → 4 + 2 * events_in token between ≤ length between
      → Elsewhere token os
      → Returns (Outcome s w os) (poll_loop attempt token between pc r s w)
  calls_end_or_wake between pc r s w os apart enough elsewhere =
      Returns-map (Ended s w) _ (poll_loop attempt token between pc r s w)
        (poll_loop_ends between pc r s w enough)
        (λ x _ h. Outcome-of_Ended s w os x apart elsewhere h)
