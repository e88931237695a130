-- ===== src/Reactor/Untold.antt =====
-- How many events of a token polls can still tell of (src/reactor.rs).
use hooch.Base.{ℕ, suc, ◌+◌, ◌≤◌, ap, List, [], ◌∷◌, arith, ◌==◌, if◌then◌else◌, Option}
use hooch.Reactor.{Reactor, Status, poll}
use hooch.Reactor.Readiness.{Op, polls, event, step, run, has_happened, event-statuses}

-- The events of `token` among the operations.
abbrev pub events_of : ℕ → List Op → ℕ
events_of token [] = 0
events_of token (polls t w ∷ os) = events_of token os
events_of token (event t ∷ os) =
    let rest = events_of token os in if t == token then suc rest else rest

abbrev pub events_in : ℕ → List (List Op) → ℕ
events_in token [] = 0
events_in token (os ∷ between) = events_of token os + events_in token between

abbrev pub untold : ℕ → Reactor → ℕ
untold token r = if has_happened (r.statuses token) then 1 else 0

poll-untold : (token t w : ℕ) (r : Reactor) → untold token (step r (polls t w)) ≤ untold token r
unfolding step poll
poll-untold token t w r = ground arith

-- Each event adds one at most, and nothing else does.
pub run-untold :
    (token : ℕ) (os : List Op) (r : Reactor)
    → untold token (run r os) ≤ untold token r + events_of token os
unfolding run
run-untold token [] r = omega arith
run-untold token (polls t w ∷ os) r =
    ground (arith, run-untold token os (step r (polls t w)), poll-untold token t w r)
run-untold token (event t ∷ os) r = ground (
  arith,
  run-untold token os (step r (event t)),
  ap (λ (f : ℕ → Option Status). f token) (event-statuses r t),
)
