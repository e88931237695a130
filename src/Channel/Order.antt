-- ===== src/Channel/Order.antt =====
-- Messages come out of a channel (src/sync/mpsc/bounded_channel.rs) in the order in which they went
-- in, over any sequence of sends and polls.
use hooch.Base.{
  ℕ, ◌+◌, ◌≡◌, ◌<◌, ◌≤◌, refl, ap, List, [], ◌∷◌, ◌++◌, length, length-append, arith, Exec, done,
  ◌>>=◌, Result, ok, Returns, Returns-bind,
}
use hooch.Ring.{capacity}
use hooch.Ring.Fifo.{capacity-pushed}
use hooch.SyncChannel.{RecvError}
use hooch.Mio.{MioWaker, NeverFails}
use hooch.Reactor
use hooch.Reactor.{Waker, Poll, pending, ready}
use hooch.Channel.{Linked, send, poll_empty, poll_recv}
use hooch.Channel.Counts.{
  Tallies, sent, send-eq-sent, sent-Tallies, taken, poll-empty, poll-eq-taken, taken-Tallies,
  poll_empty-Tallies,
}

pub data Op (T : Type 0) : Type 0 where
  sends : T → Op T
  polls : Waker → Op T

abbrev pub Answer : Type 0 → Type 0
Answer T = Poll (Result T RecvError)

-- What a FIFO answers to the polls, and what it holds at the end.
unfoldable pub deliver : {T : Type 0} → List T → List (Op T) → List (Answer T) × List T
deliver q [] = ([], q)
deliver q (sends v ∷ ops) = deliver (q ++ v ∷ []) ops
deliver [] (polls w ∷ ops) = let (answers, rest) = deliver [] ops in (pending ∷ answers, rest)
deliver (v ∷ q) (polls w ∷ ops) =
    let (answers, rest) = deliver q ops in (ready (ok v) ∷ answers, rest)

-- Every send finds fewer messages than `bound`.
abbrev pub FitsIn : {T : Type 0} → ℕ → List T → List (Op T) → Type 0
FitsIn bound q [] = Unit
FitsIn bound q (sends v ∷ ops) = (length q < bound) × FitsIn bound (q ++ v ∷ []) ops
FitsIn bound [] (polls w ∷ ops) = FitsIn bound [] ops
FitsIn bound (v ∷ q) (polls w ∷ ops) = FitsIn bound q ops

module _ {T : Type 0} (mio : MioWaker) where
  open mio use {State}

  -- The calls on the channel, with the answers to the polls.
  pub run : Linked T State → List (Op T) → Exec (List (Answer T) × Linked T State)
  run s [] = done ([], s)
  run s (sends v ∷ ops) = do (res, s') ← send mio s v; run s' ops
  run s (polls w ∷ ops) =
      let (answer, s') = poll_recv s w in
      do (answers, s'') ← run s' ops; done (answer ∷ answers, s'')

  -- A channel whose counter agrees with its messages, a reactor with room for one tag per call, and
  -- wake-ups that never fail: if every send of a sequence of sends and polls finds fewer messages
  -- than the bound, all calls return, and each poll is answered as a FIFO answers it, with the
  -- oldest message or, when there is none, by waiting. The messages left are those of the FIFO.
  pub messages_in_order :
      (ops : List (Op T)) (s : Linked T State) (q : List T) (ts : List ℕ)
      → NeverFails mio
      → Tallies s q ts
      → FitsIn s.channel.inner.bound q ops
      → length ts + length ops ≤ capacity s.reactor.reactor_tag_buffer
      → Returns
          (λ (answers, s').
            (answers ≡ (deliver q ops).0) × (s'.channel.inner.queue ≡ (deliver q ops).1))
          (run s ops)
  unfolding run deliver poll_empty Reactor.store_waker_channel
  messages_in_order [] s q ts works t fit space = (refl, t.queue)
  messages_in_order (sends v ∷ ops) s q ts works t fit space =
      rw (send-eq-sent mio works s v q ts t fit.0 (omega arith)) (
        messages_in_order ops (sent mio works s v) (q ++ v ∷ []) (ts ++ s.channel.reactor_tag ∷ [])
          works (sent-Tallies mio works s v q ts t fit.0 (omega arith)) fit.1
          (omega (
            arith,
            capacity-pushed s.reactor.reactor_tag_buffer s.channel.reactor_tag,
            length-append ts (s.channel.reactor_tag ∷ []),
          )))
  messages_in_order (polls w ∷ ops) s [] ts works t fit space = rw (poll-empty s w ts t) (
      Returns-bind _ _ (run (poll_empty s w) ops) _
        (messages_in_order ops (poll_empty s w) [] ts works (poll_empty-Tallies s w [] ts t) fit
          (omega arith))
        (λ (answers, s') (told, left).
          (ap (λ (others : List (Answer T)). pending ∷ others) told, left)))
  messages_in_order (polls w ∷ ops) s (v ∷ q) ts works t fit space =
      rw (poll-eq-taken s w v q ts t) (
        Returns-bind _ _ (run (taken s q) ops) _
          (messages_in_order ops (taken s q) q ts works (taken-Tallies s v q ts t) fit
            (omega arith))
          (λ (answers, s') (told, left).
            (ap (λ (others : List (Answer T)). ready (ok v) ∷ others) told, left)))
