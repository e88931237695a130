-- ===== src/Runtime/Delivery.antt =====
-- A message on its way from `BoundedSender::send` (src/sync/mpsc/bounded_channel.rs) to a task that
-- waits for it: through the event loop of src/reactor.rs, the waker of src/task/task.rs and
-- src/task/manager.rs.
use hooch.Base.{ℕ, Option, none, some, List, [], ◌∷◌, ◌==◌, if◌then◌else◌, Exec, done, ◌>>=◌}
use hooch.DashMap.{DashMap}
use hooch.Mio.{MioWaker}
use hooch.Reactor.{Reactor, Waker, TagType, channel, waker_token, on_event}
use hooch.Channel.{Linked, send, poll_recv}
use hooch.Waker.{Arcs}
use hooch.Waker.Ops.{WakerOp, clones, drops, wakes, wakes_by_ref, run}
use hooch.Waker.Rounds.{round}

-- `HashMap::insert` drops the waker that was stored.
unfoldable pub displaced : Option TagType → List WakerOp
displaced none = []
displaced (some (channel waker)) = drops waker ∷ []

-- The calls on wakers that `poll_recv` makes in a poll of the task at `ptr`.
unfoldable pub poll_calls : {T M : Type 0} → Linked T M → ℕ → List WakerOp
poll_calls l ptr =
    if l.channel.queue_cnt == 0
    then clones ptr ∷ displaced (l.reactor.reactor_tags l.channel.reactor_tag)
    else []

-- The calls of the event loop on the wakers of the tags, and on the waker of a token.
unfoldable pub tag_calls : List Waker → List WakerOp
tag_calls [] = []
tag_calls (waker ∷ wakers) = wakes_by_ref waker ∷ tag_calls wakers

unfoldable pub token_calls : List Waker → List WakerOp
token_calls [] = []
token_calls (waker ∷ wakers) = wakes waker ∷ token_calls wakers

module _ (D : DashMap ℕ) where
  open D use {Map}

  -- `run` of src/reactor.rs at the event of a token.
  unfoldable pub handle_event : ℕ → Reactor → Arcs Map → Exec (Reactor × Arcs Map)
  handle_event token r s = do
    (woken, r') ← on_event r token
    s' ← run D (if token == waker_token then tag_calls woken else token_calls woken) s
    done (r', s')

module _ {T : Type 0} (D : DashMap ℕ) (mio : MioWaker) where
  open D use {Map}
  open mio use {State}

  -- Executor `e` polls the task at `ptr`, which receives from the channel, and asks for work. Then a
  -- message is sent, and the event loop takes its event.
  unfoldable pub wait_send_wake :
      ℕ → ℕ → T → Linked T State → Arcs Map → Exec (Linked T State × Arcs Map)
  wait_send_wake e ptr v l s = do
    s' ← round D e (poll_calls l ptr) s
    (_, l') ← send mio (poll_recv l ptr).1 v
    (reactor, s'') ← handle_event D waker_token l'.reactor s'
    done (record l' { reactor = reactor }, s'')
