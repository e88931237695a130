-- ===== src/Tests/Events.antt =====
-- The theorems about src/reactor.rs and src/pool/thread_pool.rs at small values.
use hooch.Base.{
  ℕ, zero, suc, ◌≡◌, ◌≢◌, ◌<◌, ◌≤◌, refl, arith, Bool, true, false, some, none, Option, List, [],
  ◌∷◌, ◌++◌, length, length-replicate, get_elem?, panicked, update, Returns, ◌==◌, if◌then◌else◌,
}
use hooch.Ring
use hooch.Ring.{Ring, capacity}
use hooch.Ring.Fifo.{Holds, pushed, new-Holds, pushed-Holds}
use hooch.SyncChannel
use hooch.SyncChannel.{SyncChannel}
use hooch.Reactor.{Reactor, TagType, channel, init, waker_token, poll, on_event}
use hooch.Reactor.Drain.{wakers_of, Drained, waker_event_drains}
use hooch.Reactor.Readiness.{Op, polls, event, run, told_next, is_ready, poll_tells}
use hooch.Reactor.Tokens.{nth_token, nth_tag, tokens_unique}
use hooch.Pool
use hooch.Pool.{HoochPool, Pool, channel_bound, execute, execute_all, worker_round}
use hooch.Pool.Rotation.{dealt, length-dealt_le}
use hooch.Pool.Deal.{IsValid, HasRoom}
use hooch.Pool.Start.{pool_deals}
use hooch.Pool.Panics.{panic_spreads}

-- Tag 5 has a waker, and tag 6 has none.
abbrev tags : ℕ → Option TagType
tags tag = if tag == 5 then some (channel 9) else none

abbrev one_slot_less : Ring ℕ
one_slot_less = pushed (pushed (Ring.new 4) 5) 6

abbrev with_tags : Reactor
with_tags = record {
  reactor_tag_buffer = one_slot_less;
  reactor_tags = tags;
  statuses = λ token. none;
  next_tag = 7;
  next_token = 1;
}

five_six : Holds one_slot_less (5 ∷ 6 ∷ [])
unfolding Ring.new pushed
five_six =
    pushed-Holds (pushed (Ring.new 4) 5) (5 ∷ []) 6
      (pushed-Holds (Ring.new 4) [] 5 (new-Holds 4 (omega arith))
        (omega (arith, length-replicate {A = Option ℕ} 4 none)))
      (omega (arith, length-replicate {A = Option ℕ} 4 none))

waker_event_drains_example :
    Returns (Drained with_tags (wakers_of tags (5 ∷ 6 ∷ []))) (on_event with_tags waker_token)
waker_event_drains_example = waker_event_drains with_tags (5 ∷ 6 ∷ []) five_six

abbrev os : List Op
os = polls 1 8 ∷ event 2 ∷ event 1 ∷ []

told : told_next false 1 os ≡ true
unfolding told_next
told = refl

poll_tells_example : is_ready (poll (run with_tags os) 1 9).0 ≡ told_next false 1 os
poll_tells_example = poll_tells os with_tags 1 9 (λ e. omega (arith, e))

tokens_unique_example :
    (nth_token 3 init ≢ nth_token 4 init)
    × (nth_token 3 init ≢ waker_token)
    × (nth_token 4 init ≢ waker_token)
    × (nth_tag 3 init ≢ nth_tag 4 init)
tokens_unique_example = tokens_unique 3 4 (omega arith) (omega arith)

-- Two workers, of which the second is next.
abbrev pub two_workers : {F : Type 0} → List F → Pool F
two_workers queue = record {
  pool = record { num_threads = 2; cursor = 1; senders = 0 ∷ 1 ∷ [] };
  channels = λ w. record { bound = 3; queue = queue; receiver = true; senders = 1 };
}

pub two_workers-IsValid : {F : Type 0} (queue : List F) → IsValid (two_workers queue)
two_workers-IsValid queue = record {
  small = omega arith;
  cursor_in = omega arith;
  senders = known;
  receivers = λ w lt. refl;
}
  where
    known : (w : ℕ) → w < 2 → get_elem? (0 ∷ 1 ∷ []) w ≡ some w
    known zero lt = refl
    known (suc zero) lt = refl
    known (suc (suc w)) lt = absurd (omega (arith, lt))

abbrev closures : List ℕ
closures = 70 ∷ 80 ∷ 90 ∷ []

second_gets : dealt 2 1 1 closures ≡ 70 ∷ 90 ∷ []
unfolding dealt
second_gets = refl

enough_room : HasRoom (two_workers {F = ℕ} []) closures
enough_room w lt = omega (arith, length-dealt_le 2 1 w closures)

no_channels : ℕ → SyncChannel ℕ
no_channels w = SyncChannel.sync_channel 0

pool_deals_example :
    Returns
      (λ p.
        ((w : ℕ) → w < 2 → (p.channels w).queue ≡ dealt 2 0 w closures)
        × ((v w : ℕ)
            → v < 2
            → w < 2
            → length (p.channels v).queue ≤ suc (length (p.channels w).queue)))
      (execute_all (Pool.init 2 no_channels) closures)
    × Returns
        (λ p. IsValid p × ((w : ℕ) → w < 2 → (p.channels w).queue ≡ [] ++ dealt 2 1 w closures))
        (execute_all (two_workers {F = ℕ} []) closures)
pool_deals_example =
    pool_deals 2 no_channels closures (two_workers {F = ℕ} []) closures (omega arith) (omega arith)
      (omega arith) (two_workers-IsValid {F = ℕ} []) enough_room

-- Closure 13 panics.
abbrev panics : ℕ → Bool
panics f = f == 13

panic_spreads_example :
    execute {F = ℕ}
      (record (two_workers {F = ℕ} (13 ∷ 70 ∷ [])) {
        channels =
            update
              (two_workers {F = ℕ} (13 ∷ 70 ∷ [])).channels
              1
              (record { bound = 3; queue = []; receiver = false; senders = 1 });
      })
      80
    ≡ panicked
unfolding worker_round SyncChannel.recv
panic_spreads_example =
    panic_spreads panics (two_workers {F = ℕ} (13 ∷ 70 ∷ [])) 13 80 (70 ∷ []) _
      (two_workers-IsValid (13 ∷ 70 ∷ [])) refl refl refl
