-- ===== src/Runtime/Stored.antt =====
-- The wakers that a poll of a channel (src/sync/mpsc/bounded_channel.rs) stores in src/reactor.rs.
use hooch.Base.{ℕ, ◌<◌, ◌≤◌, Option, none, some, List, ◌∷◌, length, arith}
use hooch.Reactor.{Waker, TagType, channel}
use hooch.Reactor.Drain.{wakers_of}
use hooch.Channel.{Linked, poll_empty}
use hooch.Waker.Ops.{WakerOp, clones, count_wakers, AreHeld}
use hooch.Waker.Holding.{one_more}
use hooch.Runtime.Delivery.{displaced}

-- The waker that is stored, if any, is there.
abbrev pub StoredHeld : Option TagType → (ℕ → ℕ) → Type 0
StoredHeld none wakers = Unit
StoredHeld (some (channel w)) wakers = 0 < wakers w

-- The calls of a poll of an empty channel.
abbrev pub stores : Option TagType → ℕ → List WakerOp
stores slot ptr = clones ptr ∷ displaced slot

pub stores-few : (slot : Option TagType) (ptr : ℕ) → length (stores slot ptr) ≤ 2
unfolding displaced
stores-few none ptr = omega arith
stores-few (some (channel w)) ptr = omega arith

pub stores-AreHeld :
    (slot : Option TagType) (ptr : ℕ) (wakers : ℕ → ℕ)
    → StoredHeld slot wakers
    → AreHeld (stores slot ptr) (one_more wakers ptr)
unfolding displaced
stores-AreHeld none ptr wakers held = (ground arith, tt)
stores-AreHeld (some (channel w)) ptr wakers held = (ground arith, (ground (arith, held), tt))

pub stores-leaves :
    (slot : Option TagType) (ptr : ℕ) (wakers : ℕ → ℕ)
    → StoredHeld slot wakers
    → 1 < count_wakers (stores slot ptr) (one_more wakers ptr) ptr
unfolding displaced
stores-leaves none ptr wakers held = ground arith
stores-leaves (some (channel w)) ptr wakers held = ground (arith, held)

-- After a poll by the task at `ptr`, the wakers of the tags `ts`.
abbrev pub woken_before : {T M : Type 0} → Linked T M → ℕ → List ℕ → List Waker
woken_before l ptr ts = wakers_of (poll_empty l ptr).reactor.reactor_tags ts
