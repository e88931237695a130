-- ===== src/Reactor.antt =====
-- src/reactor.rs, `Reactor`, and `Status` of src/executor.rs.
pub mod Drain
pub mod Readiness
pub mod Untold
pub mod Tokens
use hooch.Base.{
  ℕ, zero, suc, ◌+◌, ◌*◌, ◌%◌, Bool, true, false, Option, none, some, List, [], ◌∷◌, ◌++◌, ◌==◌,
  if◌then◌else◌, update, usize_size, Exec, done, blocked, ◌>>=◌, unwrap,
}
use hooch.Ring
use hooch.Ring.{Ring}

-- A `Waker` is the address of the task that it wakes. Two wakers with one address will wake the
-- same task.
abbrev pub Waker : Type 0
Waker = ℕ

pub data Status : Type 0 where
  awaited : Waker → Status
  happened : Status

pub data TagType : Type 0 where
  channel : Waker → TagType

pub data Poll {ℓ} (A : Type ℓ) : Type ℓ where
  pending : Poll A
  ready : A → Poll A

-- Tags and tokens are their numbers. The two maps are functions. `next_tag` is the counter
-- REACTOR_TAG_NUM, and `next_token` the one of `unique_token`.
pub record Reactor : Type 0 where
  pub reactor_tag_buffer : Ring ℕ
  pub reactor_tags : ℕ → Option TagType
  pub statuses : ℕ → Option Status
  pub next_tag : ℕ
  pub next_token : ℕ

abbrev pub waker_token : ℕ
waker_token = 0

-- What the initialiser of the cell in `Reactor::get` makes.
unfoldable pub init : Reactor
init = record {
  reactor_tag_buffer = Ring.new (1024 * 1024);
  reactor_tags = λ tag. none;
  statuses = λ token. none;
  next_tag = 0;
  next_token = 1;
}

unfoldable pub generate_reactor_tag : Reactor → ℕ × Reactor
generate_reactor_tag r = (r.next_tag, record r { next_tag = (r.next_tag + 1) % usize_size })

unfoldable pub unique_token : Reactor → ℕ × Reactor
unique_token r = (r.next_token, record r { next_token = (r.next_token + 1) % usize_size })

unfoldable pub status_store : Reactor → ℕ → Waker → Reactor
status_store r token waker = record r { statuses = update r.statuses token (some (awaited waker)) }

unfoldable pub has_token_progressed : Reactor → ℕ → Bool
has_token_progressed r token = elim (r.statuses token) [
  | none ↦ false
  | some happened ↦ true
  | some (awaited w) ↦ false
]

unfoldable pub store_waker_channel : Reactor → ℕ → Waker → Reactor
store_waker_channel r tag waker = record r {
  reactor_tags = update r.reactor_tags tag (some (channel waker));
}

unfoldable pub register_reactor_tag : Reactor → ℕ → Exec Reactor
register_reactor_tag r tag = do
  (res, ring) ← Ring.push r.reactor_tag_buffer tag
  _ ← unwrap res
  done (record r { reactor_tag_buffer = ring })

unfoldable pub remove_tag : Reactor → ℕ → Reactor
remove_tag r tag = record r { reactor_tags = update r.reactor_tags tag none }

-- The result of a poll is `Ok(())` whenever it is ready.
unfoldable pub poll : Reactor → ℕ → Waker → Poll (Unit {0}) × Reactor
poll r token waker = elim (r.statuses token) [
  | none ↦ (pending, record r { statuses = update r.statuses token (some (awaited waker)) })
  | some (awaited w) ↦ (
    pending,
    if w == waker
        then r
        else record r { statuses = update r.statuses token (some (awaited waker)) },
  )
  | some happened ↦ (ready tt, record r { statuses = update r.statuses token none })
]

-- What `run` wakes for a tag that it takes from the buffer.
abbrev pub tag_wakes : Option TagType → List Waker
tag_wakes none = []
tag_wakes (some (channel waker)) = waker ∷ []

-- The `while let` of `run`, for a number of rounds, with the wakers that it has woken. `blocked`
-- stands for more rounds.
unfoldable pub drain_loop : ℕ → Reactor → List Waker → Exec (List Waker × Reactor)
drain_loop zero r woken = blocked
drain_loop (suc rounds) r woken = do
  (next, ring) ← Ring.pop r.reactor_tag_buffer
  let r' = record r { reactor_tag_buffer = ring }
  elim next [
    | none ↦ done (woken, r')
    | some tag ↦ drain_loop rounds r' (woken ++ tag_wakes (r.reactor_tags tag))
  ]

-- What `run` wakes when the event of a token takes the place of the status that it had.
abbrev pub status_wakes : Option Status → List Waker
status_wakes none = []
status_wakes (some (awaited waker)) = waker ∷ []
status_wakes (some happened) = []

-- One event of `run`, with the wakers that it wakes, in order. Each round of the loop takes one tag
-- out, so there is one round more than there are tags.
unfoldable pub on_event : Reactor → ℕ → Exec (List Waker × Reactor)
on_event r token =
    if token == waker_token
    then drain_loop (suc r.reactor_tag_buffer.count) r []
    else done (
      status_wakes (r.statuses token),
      record r { statuses = update r.statuses token (some happened) },
    )

-- The events that one `mio` poll delivers, in order.
unfoldable pub on_events : Reactor → List ℕ → Exec (List Waker × Reactor)
on_events r [] = done ([], r)
on_events r (token ∷ tokens) = do
  (woken, r') ← on_event r token
  (more, r'') ← on_events r' tokens
  done (woken ++ more, r'')
