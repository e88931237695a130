-- ===== src/Spawner/Joins.antt =====
-- What the poll of a `JoinHandle` (src/spawner.rs) answers.
use hooch.Base.{
  ℕ, ◌≡◌, ◌<◌, refl, false, none, some, List, [], ◌∷◌, length, arith, panicked, ok, Returns, ◌⊎◌,
  inl, inr, ◌==◌,
}
use hooch.Ring.{capacity}
use hooch.Mio.{MioWaker, NeverFails}
use hooch.Reactor.{Waker, ready}
use hooch.Channel
use hooch.Channel.{Linked, poll_recv, poll_empty}
use hooch.Channel.Counts.{Tallies, sent, send-eq-sent, sent-Tallies, poll-eq-taken}
use hooch.Spawner.{BoxAny, of_type, downcast, JoinHandle, running, answered, poll, finish}

module _ {T : Type 0} (mio : MioWaker) (works : NeverFails mio) where
  open mio use {State}

  pub poll-message :
      (jh : JoinHandle) (s : Linked (BoxAny T) State) (v : T) (ts : List ℕ) (w w' : Waker)
      → (jh.recv_fut ≡ none) ⊎ (jh.recv_fut ≡ some running)
      → Tallies s (of_type v ∷ []) ts
      → Returns
          (λ (answer, jh', s'). (answer ≡ ready (ok v)) × (poll jh' s' w' ≡ panicked))
          (poll jh s w)
  unfolding poll answered downcast
  poll-message jh s v ts w w' (inl fresh) t =
      rw (fresh, poll-eq-taken s w (of_type v) [] ts t) (refl, refl)
  poll-message jh s v ts w w' (inr going) t =
      rw (going, poll-eq-taken s w (of_type v) [] ts t) (refl, refl)

  pub drop-Tallies :
      (s : Linked (BoxAny T) State) (q : List (BoxAny T)) (ts : List ℕ)
      → 0 < s.channel.clone_count
      → Tallies s q ts
      → Tallies (Channel.drop s) q ts
  unfolding Channel.drop
  drop-Tallies s q ts some_sender t = record {
    queue = t.queue;
    counted = t.counted;
    fits = t.fits;
    small = t.small;
    receiver = t.receiver;
    tags =
        let alive : (s.channel.clone_count == 0) ≡ false = ground (arith, some_sender) in
        rw alive t.tags;
  }

  -- Let the channel of a handle be empty, with room, its tag buffer have room, and wake-ups never
  -- fail. When the wrapped future ends with a value, the next poll of a handle that has not been
  -- polled is ready with the value, and a poll after that one panics.
  pub join_gets_value :
      (jh : JoinHandle) (s : Linked (BoxAny T) State) (v : T) (ts : List ℕ) (w w' : Waker)
      → jh.recv_fut ≡ none
      → Tallies s [] ts
      → 0 < s.channel.inner.bound
      → 0 < s.channel.clone_count
      → length ts < capacity s.reactor.reactor_tag_buffer
      → Returns
          (λ s'.
            Returns
              (λ (answer, jh', s''). (answer ≡ ready (ok v)) × (poll jh' s'' w' ≡ panicked))
              (poll jh s' w))
          (finish mio s v)
  unfolding finish
  join_gets_value jh s v ts w w' fresh t room some_sender space =
      rw (send-eq-sent mio works s (of_type v) [] ts t room space) (
        poll-message jh (Channel.drop (sent mio works s (of_type v))) v _ w w' (inl fresh) (
          drop-Tallies (sent mio works s (of_type v)) (of_type v ∷ []) _ some_sender
            (sent-Tallies mio works s (of_type v) [] ts t room space)))
