-- ===== src/Tests/Rings.antt =====
-- The theorems about src/utils/ring_buffer.rs at small rings.
use hooch.Base.{
  ℕ, ◌+◌, ◌≡◌, refl, arith, some, none, Option, List, [], ◌∷◌, ok, err, done, ◌>>=◌, get_elem?,
  length-replicate,
}
use hooch.Ring
use hooch.Ring.{Ring, buffer_full, capacity, push, pop}
use hooch.Ring.Queue
use hooch.Ring.Queue.{Call, put, take, Reply, put_reply, take_reply}
use hooch.Ring.Fifo.{Holds, new-Holds, pushed, popped, pushed-Holds, popped-Holds}
use hooch.Ring.Refine.{run, Refines, run-Refines}
use hooch.Ring.Atomic.{PushPc, Shared, Reach, Faults, pushing}
use hooch.Ring.RoundTrip.{push_all, pop_all, fill_and_drain}
use hooch.Ring.Races.{
  producer_consumer, producer_consumer-Faults, two_producers, two_producers_lose,
}

-- Two slots, three pushes and four pops.
abbrev calls : List (Call ℕ)
calls = put 7 ∷ put 8 ∷ put 9 ∷ take ∷ take ∷ take ∷ []

abbrev pub two_slots : Ring ℕ
two_slots = record { buffer = none ∷ none ∷ []; count = 0; start = 0; end = 0 }

queue_run :
    (Queue.run 2 [] calls).0
    ≡ put_reply (ok tt)
      ∷ put_reply (ok tt)
      ∷ put_reply (err buffer_full)
      ∷ take_reply (some 7)
      ∷ take_reply (some 8)
      ∷ take_reply none
      ∷ []
unfolding Queue.run Queue.step
queue_run = refl

run-Refines_example : Refines (run (Ring.new 2) calls) (Queue.run 2 [] calls) 2
run-Refines_example = run-Refines 2 calls (omega arith)

-- Three slots, of which the second holds a value.
abbrev shifted : Ring ℕ
shifted = record { buffer = none ∷ some 7 ∷ none ∷ []; count = 1; start = 1; end = 2 }

shifted-Holds : Holds shifted (7 ∷ [])
unfolding popped pushed Ring.new
shifted-Holds = popped-Holds (pushed (pushed (Ring.new 3) 6) 7) 6 (7 ∷ []) (
    pushed-Holds (pushed (Ring.new 3) 6) (6 ∷ []) 7
      (pushed-Holds (Ring.new 3) [] 6 (new-Holds 3 (omega arith)) (omega arith)) (omega arith))

fill_and_drain_example :
    (r : Ring ℕ) × ((do r1 ← push_all shifted (8 ∷ 9 ∷ []); pop_all 3 r1)
      ≡ done (7 ∷ 8 ∷ 9 ∷ [], r))
    × Holds r []
    × (capacity r ≡ 3)
fill_and_drain_example = fill_and_drain shifted (7 ∷ []) (8 ∷ 9 ∷ []) shifted-Holds (omega arith)

producer_consumer-Faults_example :
    (s : Shared ℕ) × Reach (producer_consumer (Ring.new 2) 7) s × Faults s
producer_consumer-Faults_example = producer_consumer-Faults 0 7

two_producers_lose_example :
    (s : Shared ℕ) × Reach (two_producers (Ring.new 2) 7 8) s
    × (s.threads 0 ≡ pushing (PushPc.returned (ok tt)))
    × (s.threads 1 ≡ pushing (PushPc.returned (ok tt)))
    × (s.ring.count ≡ (Ring.new {A = ℕ} 2).count + 2)
    × (get_elem? s.ring.buffer (Ring.new {A = ℕ} 2).end ≡ some (some 8))
    × ((ys : List ℕ) → ¬ Holds s.ring ys)
unfolding Ring.new
two_producers_lose_example =
    two_producers_lose (Ring.new 2) [] 7 8 (new-Holds 2 (omega arith))
      (omega (arith, length-replicate {A = Option ℕ} 2 none))
