-- ===== src/Waker/Balance.antt =====
-- The references to tasks (src/task/task.rs) over a sequence of calls on their wakers.
use hooch.Base.{
  ℕ, suc, ◌+◌, ◌≡◌, ◌<◌, fun_ext, subst, Bool, true, if◌then◌else◌, List, [], ◌∷◌, length, arith,
  Option, update, Exec, done, panicked, ◌>>=◌, Returns, Returns-bind,
}
use hooch.DashMap.{DashMap}
use hooch.Task.{Task}
use hooch.Waker.{Arcs, arc_clone, clone, drop, hand_over, wake, wake_by_ref}
use hooch.Waker.Ops.{
  WakerOp, clones, drops, wakes, wakes_by_ref, target, wakers_after, count_wakers, AreHeld, perform,
  run,
}
use hooch.Waker.Handing.{
  Balanced, still_there, use_less, clone-Balanced, drop-Balanced, hand_over-Balanced,
}

if_alive :
    {A : Type 0} (P : A → Type 0) (b : Bool) (m : Exec A)
    → b ≡ true
    → Returns P m
    → Returns P (if b then m else panicked)
if_alive P b m up h = rw up h

module _ (D : DashMap ℕ) (n : ℕ) (running : ℕ → Option Task) (others : ℕ → ℕ) where
  open D use {Map}

  wake_by_ref-Balanced :
      (left room : ℕ) (wakers : ℕ → ℕ) (s : Arcs Map) (ptr : ℕ)
      → Balanced D n running others (suc left) (suc room) wakers s
      → 0 < wakers ptr
      → Returns
          (Balanced D n running others left room wakers)
          (do s' ← arc_clone s ptr; hand_over D s' ptr)
  wake_by_ref-Balanced left room wakers s ptr b some_held =
      Returns-bind
        (Balanced D n running others left (suc room) (update wakers ptr (wakers ptr + 1))) _
        (arc_clone s ptr) (λ s'. hand_over D s' ptr)
        (clone-Balanced D n running others left (suc room) wakers s ptr b some_held)
        (λ s' b'.
          subst
            (λ (w : ℕ → ℕ). Returns (Balanced D n running others left room w) (hand_over D s' ptr))
            (fun_ext (λ a. ground arith))
            (hand_over-Balanced D n running others left room (update wakers ptr (wakers ptr + 1)) s'
              ptr b' (ground arith)))

  pub perform-Balanced :
      (op : WakerOp) (left room : ℕ) (wakers : ℕ → ℕ) (s : Arcs Map)
      → Balanced D n running others (suc left) (suc room) wakers s
      → 0 < wakers (target op)
      → Returns (Balanced D n running others left room (wakers_after op wakers)) (perform D op s)
  unfolding perform clone drop wake wake_by_ref
  perform-Balanced (clones ptr) left room wakers s b some_held =
      Returns-bind
        (λ (x : ℕ × Arcs Map).
          Balanced D n running others left room (wakers_after (clones ptr) wakers) x.1)
        (Balanced D n running others left room (wakers_after (clones ptr) wakers))
        (do s' ← arc_clone s ptr; done (ptr, s')) (λ x. done x.1)
        (Returns-bind
          (Balanced D n running others left (suc room) (wakers_after (clones ptr) wakers)) _
          (arc_clone s ptr) (λ s'. done (ptr, s'))
          (clone-Balanced D n running others left (suc room) wakers s ptr b some_held)
          (λ s' b'.
            use_less D n running others left left (suc room) room _ s' (omega arith) (omega arith)
              b'))
        (λ x b'. b')
  perform-Balanced (drops ptr) left room wakers s b some_held =
      drop-Balanced D n running others left room wakers s ptr
        (use_less D n running others (suc left) left (suc room) room wakers s (omega arith)
          (omega arith) b)
        some_held
  perform-Balanced (wakes ptr) left room wakers s b some_held =
      rw (still_there D n running others (suc left) (suc room) wakers s ptr b some_held) (
        if_alive _ s.manager_alive _ b.alive (
          hand_over-Balanced D n running others left room wakers s ptr
            (use_less D n running others (suc left) left (suc room) (suc room) wakers s
              (omega arith) (omega arith) b)
            some_held))
  perform-Balanced (wakes_by_ref ptr) left room wakers s b some_held =
      rw (still_there D n running others (suc left) (suc room) wakers s ptr b some_held) (
        if_alive _ s.manager_alive _ b.alive
          (wake_by_ref-Balanced left room wakers s ptr b some_held))

  -- Any sequence of calls on wakers that are there returns, and the counts are right again.
  pub wakers_balance :
      (ops : List WakerOp) (left room : ℕ) (wakers : ℕ → ℕ) (s : Arcs Map)
      → Balanced D n running others (length ops + left) (length ops + room) wakers s
      → AreHeld ops wakers
      → Returns (Balanced D n running others left room (count_wakers ops wakers)) (run D ops s)
  unfolding run
  wakers_balance [] left room wakers s b held_all =
      use_less D n running others _ left _ room wakers s (omega arith) (omega arith) b
  wakers_balance (op ∷ ops) left room wakers s b (some_held, held_all) =
      Returns-bind
        (Balanced D n running others (length ops + left) (length ops + room)
          (wakers_after op wakers))
        _ (perform D op s) (run D ops)
        (perform-Balanced op (length ops + left) (length ops + room) wakers s
          (use_less D n running others _ (suc (length ops + left)) _ (suc (length ops + room))
            wakers s (omega arith) (omega arith) b)
          some_held)
        (λ s' b'. wakers_balance ops left room (wakers_after op wakers) s' b' held_all)
