-- ===== src/Waker/Ops.antt =====
-- The calls that the holders of wakers make (src/task/task.rs), in a sequence.
use hooch.Base.{ℕ, ◌+◌, ◌-◌, ◌<◌, List, [], ◌∷◌, update, Exec, done, ◌>>=◌}
use hooch.DashMap.{DashMap}
use hooch.Waker.{Arcs, clone, drop, wake, wake_by_ref}

-- What a holder of a waker may do with it.
pub data WakerOp : Type 0 where
  clones : ℕ → WakerOp
  drops : ℕ → WakerOp
  wakes : ℕ → WakerOp
  wakes_by_ref : ℕ → WakerOp

-- The task of the waker.
abbrev pub target : WakerOp → ℕ
target (clones ptr) = ptr
target (drops ptr) = ptr
target (wakes ptr) = ptr
target (wakes_by_ref ptr) = ptr

-- How many wakers of each task there are afterwards.
abbrev pub wakers_after : WakerOp → (ℕ → ℕ) → ℕ → ℕ
wakers_after (clones ptr) wakers = update wakers ptr (wakers ptr + 1)
wakers_after (drops ptr) wakers = update wakers ptr (wakers ptr - 1)
wakers_after (wakes ptr) wakers = update wakers ptr (wakers ptr - 1)
wakers_after (wakes_by_ref ptr) wakers = wakers

abbrev pub count_wakers : List WakerOp → (ℕ → ℕ) → ℕ → ℕ
count_wakers [] wakers = wakers
count_wakers (op ∷ ops) wakers = count_wakers ops (wakers_after op wakers)

-- Each operation is called on a waker that is there.
abbrev pub AreHeld : List WakerOp → (ℕ → ℕ) → Type 0
AreHeld [] wakers = Unit
AreHeld (op ∷ ops) wakers = (0 < wakers (target op)) × AreHeld ops (wakers_after op wakers)

module _ (D : DashMap ℕ) where
  open D use {Map}

  unfoldable pub perform : WakerOp → Arcs Map → Exec (Arcs Map)
  perform (clones ptr) s = do (ptr', s') ← clone s ptr; done s'
  perform (drops ptr) s = drop s ptr
  perform (wakes ptr) s = wake D s ptr
  perform (wakes_by_ref ptr) s = wake_by_ref D s ptr

  unfoldable pub run : List WakerOp → Arcs Map → Exec (Arcs Map)
  run [] s = done s
  run (op ∷ ops) s = do s' ← perform op s; run ops s'
