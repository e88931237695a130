-- ===== src/Reactor/Drain.antt =====
-- The tags that the event loop of src/reactor.rs takes from the buffer.
use hooch.Base.{
  ℕ, zero, suc, ◌≡◌, ◌<◌, refl, ap, ◌∙◌, sym, List, [], ◌∷◌, ◌++◌, append-nil, append_assoc, length,
  length-append, none, ◌≤◌, arith, Option, some, Returns, Returns-map, subst,
}
use hooch.Ring.Fifo.{Holds, popped, pop-empty, pop-eq-popped, popped-Holds}
use hooch.Reactor.{Reactor, TagType, channel, Waker, tag_wakes, waker_token, drain_loop, on_event}

-- The wakers of the tags that have one.
unfoldable pub wakers_of : (ℕ → Option TagType) → List ℕ → List Waker
wakers_of tags [] = []
wakers_of tags (t ∷ ts) = tag_wakes (tags t) ++ wakers_of tags ts

pub wakers_of-nil : (tags : ℕ → Option TagType) → wakers_of tags [] ≡ []
unfolding wakers_of
wakers_of-nil tags = refl

length-tag_wakes : (slot : Option TagType) → length (tag_wakes slot) ≤ 1
length-tag_wakes none = omega arith
length-tag_wakes (some (channel w)) = omega arith

-- Each tag has one waker at most.
pub length-wakers_of :
    (tags : ℕ → Option TagType) (ts : List ℕ) → length (wakers_of tags ts) ≤ length ts
unfolding wakers_of
length-wakers_of tags [] = omega arith
length-wakers_of tags (t ∷ ts) = omega (
  arith,
  length-append (tag_wakes (tags t)) (wakers_of tags ts),
  length-tag_wakes (tags t),
  length-wakers_of tags ts,
)

pub wakers_of-snoc :
    (tags : ℕ → Option TagType) (ts : List ℕ) (t : ℕ)
    → wakers_of tags (ts ++ t ∷ []) ≡ wakers_of tags ts ++ tag_wakes (tags t)
unfolding wakers_of
wakers_of-snoc tags [] t = append-nil (tag_wakes (tags t))
wakers_of-snoc tags (u ∷ ts) t =
    ap (λ (rest : List Waker). tag_wakes (tags u) ++ rest) (wakers_of-snoc tags ts t)
    ∙ sym (append_assoc (tag_wakes (tags u)) (wakers_of tags ts) (tag_wakes (tags t)))

-- The buffer is empty, and nothing else has changed.
abbrev pub Drained : Reactor → List Waker → List Waker × Reactor → Type 0
Drained r woken (out, r') =
    (out ≡ woken)
    × Holds r'.reactor_tag_buffer []
    × (r' ≡ record r { reactor_tag_buffer = r'.reactor_tag_buffer })

drain_loop_lem :
    (rounds : ℕ) (r : Reactor) (ts : List ℕ) (woken : List Waker)
    → Holds r.reactor_tag_buffer ts
    → length ts < rounds
    → Returns (Drained r (woken ++ wakers_of r.reactor_tags ts)) (drain_loop rounds r woken)
unfolding drain_loop wakers_of
drain_loop_lem zero r ts woken h enough = elim enough [ ]
drain_loop_lem (suc rounds) r [] woken h enough =
    rw (pop-empty r.reactor_tag_buffer h) (sym (append-nil woken), h, refl)
drain_loop_lem (suc rounds) r (t ∷ ts) woken h enough =
    rw (pop-eq-popped r.reactor_tag_buffer t ts h) (
      subst
        (λ all.
          Returns (Drained r all) (drain_loop rounds r' (woken ++ tag_wakes (r.reactor_tags t))))
        (append_assoc woken (tag_wakes (r.reactor_tags t)) (wakers_of r.reactor_tags ts))
        (drain_loop_lem rounds r' ts (woken ++ tag_wakes (r.reactor_tags t))
          (popped-Holds r.reactor_tag_buffer t ts h) (omega arith)))
  where
    r' : Reactor
    r' = record r { reactor_tag_buffer = popped r.reactor_tag_buffer }

-- When the tags `ts` are in the buffer, the event of the reactor's waker is handled in as many
-- rounds as there are tags, and one more: exactly the wakers stored for the tags are woken, in the
-- order of the tags, the buffer is empty, and nothing else of the reactor has changed.
pub waker_event_drains :
    (r : Reactor) (ts : List ℕ)
    → Holds r.reactor_tag_buffer ts
    → Returns (Drained r (wakers_of r.reactor_tags ts)) (on_event r waker_token)
unfolding on_event
waker_event_drains r ts h = drain_loop_lem _ r ts [] h (omega (arith, h.counted))

-- The task `w` is woken last, and no tag is left.
abbrev pub WokenLast : Waker → List Waker × Reactor → Type 0
WokenLast w (woken, r) =
    ((before : List Waker) × (woken ≡ before ++ w ∷ [])) × Holds r.reactor_tag_buffer []

pub last_tag_wakes :
    (r : Reactor) (ts : List ℕ) (tag : ℕ) (w : Waker)
    → Holds r.reactor_tag_buffer (ts ++ tag ∷ [])
    → r.reactor_tags tag ≡ some (channel w)
    → Returns (WokenLast w) (on_event r waker_token)
last_tag_wakes r ts tag w holds stored =
    Returns-map (Drained r (wakers_of r.reactor_tags (ts ++ tag ∷ []))) _ _
      (waker_event_drains r (ts ++ tag ∷ []) holds)
      (λ (woken, r') _ (told, empty, same). (
        (
          wakers_of r.reactor_tags ts,
          told
              ∙ wakers_of-snoc r.reactor_tags ts tag
              ∙ ap (λ slot. wakers_of r.reactor_tags ts ++ tag_wakes slot) stored,
        ),
        empty,
      ))
