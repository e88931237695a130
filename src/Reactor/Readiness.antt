-- ===== src/Reactor/Readiness.antt =====
-- When a poll of a token is ready (src/reactor.rs), over any sequence of polls and events.
use hooch.Base.{
  ℕ, zero, suc, ◌≡◌, ◌≢◌, refl, sym, ap, ◌∙◌, Bool, true, false, Bool-cases, inl, inr, Option, none,
  some, List, [], ◌∷◌, ◌++◌, arith, ◌==◌, if◌then◌else◌, Exec, done, panicked, blocked, undefined,
  update, Whenever, Whenever-then,
}
use hooch.Ring
use hooch.Ring.{Ring}
use hooch.Reactor.{
  Reactor, Status, awaited, happened, Poll, pending, ready, Waker, waker_token, poll, on_event,
  drain_loop, tag_wakes, status_wakes,
}

-- A poll of a token by a task, or an event that the event loop takes: that of a token of some source,
-- or that of the token of the reactor's own waker.
pub data Op : Type 0 where
  polls : (token : ℕ) → Waker → Op
  event : (token : ℕ) → Op

-- What `on_event` leaves behind of `r`.
abbrev left_by : Reactor → Exec (List Waker × Reactor) → Reactor
left_by r (done (woken, r')) = r'
left_by r panicked = r
left_by r blocked = r
left_by r undefined = r

-- The effect on the reactor.
unfoldable pub step : Reactor → Op → Reactor
step r (polls token w) = (poll r token w).1
step r (event token) = left_by r (on_event r token)

unfoldable pub run : Reactor → List Op → Reactor
run r [] = r
run r (o ∷ os) = run (step r o) os

-- A call on the reactor that leaves the statuses as they are.
abbrev Silent : Reactor → Exec (List Waker × Reactor) → Type 0
Silent r m = Whenever (λ (_, r'). r'.statuses ≡ r.statuses) m

taken-Silent :
    (rounds : ℕ) (r : Reactor) (ring : Ring ℕ) (woken : List Waker) (next : Option ℕ)
    → ((r' : Reactor) (woken' : List Waker) → Silent r' (drain_loop rounds r' woken'))
    → let r' = record r { reactor_tag_buffer = ring } in
      Silent r (elim next [
        | none ↦ done (woken, r')
        | some tag ↦ drain_loop rounds r' (woken ++ tag_wakes (r.reactor_tags tag))
      ])
taken-Silent rounds r ring woken none again = refl
taken-Silent rounds r ring woken (some tag) again = again _ _

drain-Silent :
    (rounds : ℕ) (r : Reactor) (woken : List Waker) → Silent r (drain_loop rounds r woken)
unfolding drain_loop
drain-Silent zero r woken = tt
drain-Silent (suc rounds) r woken =
    Whenever-then _ (Ring.pop r.reactor_tag_buffer) _
      (λ popped. taken-Silent rounds r popped.1 woken popped.0 (drain-Silent rounds))

left_by-statuses :
    (r : Reactor) (m : Exec (List Waker × Reactor))
    → Silent r m
    → (left_by r m).statuses ≡ r.statuses
left_by-statuses r (done (woken, r')) same = same
left_by-statuses r panicked same = refl
left_by-statuses r blocked same = refl
left_by-statuses r undefined same = refl

-- An event of the reactor's own waker sets no status, and one of another token sets that of the token.
pub event-statuses :
    (r : Reactor) (t : ℕ)
    → (step r (event t)).statuses
      ≡ (if t == waker_token then r.statuses else update r.statuses t (some happened))
unfolding step on_event
event-statuses r t = elim (Bool-cases (t == waker_token)) [
  | inl own ↦ rw own (left_by-statuses r _ (drain-Silent _ r []))
  | inr source ↦ rw source refl
]

-- Whether an event of `token` is still to be told: an event sets this, and a poll takes it back.
unfoldable pub told_next : Bool → ℕ → List Op → Bool
told_next flag token [] = flag
told_next flag token (polls t w ∷ os) = told_next (if t == token then false else flag) token os
told_next flag token (event t ∷ os) = told_next (if t == token then true else flag) token os

abbrev pub is_ready : {A : Type 0} → Poll A → Bool
is_ready pending = false
is_ready (ready a) = true

abbrev pub has_happened : Option Status → Bool
has_happened (some happened) = true
has_happened (some (awaited w)) = false
has_happened none = false

poll-eq-has_happened :
    (r : Reactor) (token : ℕ) (w : Waker)
    → is_ready (poll r token w).0 ≡ has_happened (r.statuses token)
unfolding poll
poll-eq-has_happened r token w = ground arith

pub poll-stores :
    (r : Reactor) (token : ℕ) (w : Waker)
    → (poll r token w).0 ≡ pending
    → (poll r token w).1.statuses token ≡ some (awaited w)
unfolding poll
poll-stores r token w waits = ground arith

-- What one operation does to the status of a token, by the flag that it leaves.
step_flag :
    (r : Reactor) (token : ℕ) (o : Op) (os : List Op)
    → token ≢ waker_token
    → told_next (has_happened (r.statuses token)) token (o ∷ os)
      ≡ told_next (has_happened ((step r o).statuses token)) token os
unfolding told_next step poll
step_flag r token (polls t w) os source = ap (λ flag. told_next flag token os) (ground arith)
step_flag r token (event t) os source =
    ap (λ flag. told_next flag token os)
      (ground (arith, ap (λ (f : ℕ → Option Status). f token) (event-statuses r t)))

-- The event step is what the event loop does for a token of a source.
pub on_event-eq-step :
    (r : Reactor) (token : ℕ)
    → token ≢ waker_token
    → on_event r token ≡ done (status_wakes (r.statuses token), step r (event token))
unfolding on_event step
on_event-eq-step r token other =
    let known : (token == waker_token) ≡ false = ground arith in rw known

-- An event of a source is there afterwards.
pub event-happened :
    (r : Reactor) (token : ℕ)
    → token ≢ waker_token
    → (step r (event token)).statuses token ≡ some happened
event-happened r token other =
    ap (λ (f : ℕ → Option Status). f token) (event-statuses r token) ∙ ground arith

-- Take a token that is not that of the reactor's own waker. After any polls and events, of this
-- token and of others, that of the reactor's own waker among them, where each event leaves what the
-- event loop makes of it, a poll of the token is ready exactly if an event of the token is still
-- untold: one that no poll of the token has followed, or one that was there at the start and that
-- no poll of it has told since.
pub poll_tells :
    (os : List Op) (r : Reactor) (token : ℕ) (w : Waker)
    → token ≢ waker_token
    → is_ready (poll (run r os) token w).0 ≡ told_next (has_happened (r.statuses token)) token os
unfolding run told_next
poll_tells [] r token w source = poll-eq-has_happened r token w
poll_tells (o ∷ os) r token w source =
    poll_tells os (step r o) token w source ∙ sym (step_flag r token o os source)

-- The operations are about other tokens.
abbrev pub Elsewhere : ℕ → List Op → Type 0
Elsewhere token [] = Unit
Elsewhere token (polls t w ∷ os) = (t ≢ token) × Elsewhere token os
Elsewhere token (event t ∷ os) = (t ≢ token) × Elsewhere token os

pub run-Elsewhere :
    (os : List Op) (r : Reactor) (token : ℕ)
    → Elsewhere token os
    → (run r os).statuses token ≡ r.statuses token
unfolding run step poll
run-Elsewhere [] r token e = refl
run-Elsewhere (polls t w ∷ os) r token e = run-Elsewhere os (poll r t w).1 token e.1 ∙ ground arith
run-Elsewhere (event t ∷ os) r token e =
    run-Elsewhere os _ token e.1
    ∙ ground (arith, e.0, ap (λ (f : ℕ → Option Status). f token) (event-statuses r t))

-- A task whose poll of a token of a source is pending is woken, and nobody else, by the next event
-- of the token, whatever polls and events of other tokens come between.
pub pending_is_woken :
    (r : Reactor) (token : ℕ) (w : Waker) (os : List Op)
    → token ≢ waker_token
    → (poll r token w).0 ≡ pending
    → Elsewhere token os
    → let r' = run (poll r token w).1 os in on_event r' token ≡ done (w ∷ [], step r' (event token))
pending_is_woken r token w os other waits e =
    on_event-eq-step _ token other
    ∙ ap (λ st. done (status_wakes st, step (run (poll r token w).1 os) (event token)))
        (run-Elsewhere os _ token e ∙ stored)
  where
    stored : (poll r token w).1.statuses token ≡ some (awaited w)
    stored = poll-stores r token w waits
